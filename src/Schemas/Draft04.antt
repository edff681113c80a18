-- ===== src/Schemas/Draft04.antt =====
-- `jsonSchema04`, the meta-schema of draft 4, as the script gives it to the schema validator
-- (core/src/main/resources/com/sandbox/runtime/v2/js/version_3/sandbox-validator.js).
use worker_cli.Prelude.{true, false, [], ◌∷◌}
use worker_cli.Js.{Value, boolean, string, obj, arr, num}

abbrev definitions : Value
definitions = obj (
    (
      "schemaArray",
      obj (
          ("type", string "array")
          ∷ ("minItems", num 1)
          ∷ ("items", obj (("$ref", string "#") ∷ []))
          ∷ []),
    )
    ∷ ("positiveInteger", obj (("type", string "integer") ∷ ("minimum", num 0) ∷ []))
    ∷ (
      "positiveIntegerDefault0",
      obj (
          (
            "allOf",
            arr (
                (obj (("$ref", string "#/definitions/positiveInteger") ∷ []))
                ∷ (obj (("default", num 0) ∷ []))
                ∷ []),
          )
          ∷ []),
    )
    ∷ (
      "simpleTypes",
      obj (
          (
            "enum",
            arr (
                (string "array")
                ∷ (string "boolean")
                ∷ (string "integer")
                ∷ (string "null")
                ∷ (string "number")
                ∷ (string "object")
                ∷ (string "string")
                ∷ []),
          )
          ∷ []),
    )
    ∷ (
      "stringArray",
      obj (
          ("type", string "array")
          ∷ ("items", obj (("type", string "string") ∷ []))
          ∷ ("minItems", num 1)
          ∷ ("uniqueItems", boolean true)
          ∷ []),
    )
    ∷ [])

abbrev properties : Value
properties = obj (
    ("id", obj (("type", string "string") ∷ []))
    ∷ ("$schema", obj (("type", string "string") ∷ []))
    ∷ ("title", obj (("type", string "string") ∷ []))
    ∷ ("description", obj (("type", string "string") ∷ []))
    ∷ ("default", obj [])
    ∷ (
      "multipleOf",
      obj (
          ("type", string "number") ∷ ("minimum", num 0) ∷ ("exclusiveMinimum", boolean true) ∷ []),
    )
    ∷ ("maximum", obj (("type", string "number") ∷ []))
    ∷ ("exclusiveMaximum", obj (("type", string "boolean") ∷ ("default", boolean false) ∷ []))
    ∷ ("minimum", obj (("type", string "number") ∷ []))
    ∷ ("exclusiveMinimum", obj (("type", string "boolean") ∷ ("default", boolean false) ∷ []))
    ∷ ("maxLength", obj (("$ref", string "#/definitions/positiveInteger") ∷ []))
    ∷ ("minLength", obj (("$ref", string "#/definitions/positiveIntegerDefault0") ∷ []))
    ∷ ("pattern", obj (("type", string "string") ∷ ("format", string "regex") ∷ []))
    ∷ (
      "additionalItems",
      obj (
          (
            "anyOf",
            arr ((obj (("type", string "boolean") ∷ [])) ∷ (obj (("$ref", string "#") ∷ [])) ∷ []),
          )
          ∷ ("default", obj [])
          ∷ []),
    )
    ∷ (
      "items",
      obj (
          (
            "anyOf",
            arr (
                (obj (("$ref", string "#") ∷ []))
                ∷ (obj (("$ref", string "#/definitions/schemaArray") ∷ []))
                ∷ []),
          )
          ∷ ("default", obj [])
          ∷ []),
    )
    ∷ ("maxItems", obj (("$ref", string "#/definitions/positiveInteger") ∷ []))
    ∷ ("minItems", obj (("$ref", string "#/definitions/positiveIntegerDefault0") ∷ []))
    ∷ ("uniqueItems", obj (("type", string "boolean") ∷ ("default", boolean false) ∷ []))
    ∷ ("maxProperties", obj (("$ref", string "#/definitions/positiveInteger") ∷ []))
    ∷ ("minProperties", obj (("$ref", string "#/definitions/positiveIntegerDefault0") ∷ []))
    ∷ ("required", obj (("$ref", string "#/definitions/stringArray") ∷ []))
    ∷ (
      "additionalProperties",
      obj (
          (
            "anyOf",
            arr ((obj (("type", string "boolean") ∷ [])) ∷ (obj (("$ref", string "#") ∷ [])) ∷ []),
          )
          ∷ ("default", obj [])
          ∷ []),
    )
    ∷ (
      "definitions",
      obj (
          ("type", string "object")
          ∷ ("additionalProperties", obj (("$ref", string "#") ∷ []))
          ∷ ("default", obj [])
          ∷ []),
    )
    ∷ (
      "properties",
      obj (
          ("type", string "object")
          ∷ ("additionalProperties", obj (("$ref", string "#") ∷ []))
          ∷ ("default", obj [])
          ∷ []),
    )
    ∷ (
      "patternProperties",
      obj (
          ("type", string "object")
          ∷ ("additionalProperties", obj (("$ref", string "#") ∷ []))
          ∷ ("default", obj [])
          ∷ []),
    )
    ∷ (
      "dependencies",
      obj (
          ("type", string "object")
          ∷ (
            "additionalProperties",
            obj (
                (
                  "anyOf",
                  arr (
                      (obj (("$ref", string "#") ∷ []))
                      ∷ (obj (("$ref", string "#/definitions/stringArray") ∷ []))
                      ∷ []),
                )
                ∷ []),
          )
          ∷ []),
    )
    ∷ (
      "enum",
      obj (("type", string "array") ∷ ("minItems", num 1) ∷ ("uniqueItems", boolean true) ∷ []),
    )
    ∷ (
      "type",
      obj (
          (
            "anyOf",
            arr (
                (obj (("$ref", string "#/definitions/simpleTypes") ∷ []))
                ∷ (obj (
                    ("type", string "array")
                    ∷ ("items", obj (("$ref", string "#/definitions/simpleTypes") ∷ []))
                    ∷ ("minItems", num 1)
                    ∷ ("uniqueItems", boolean true)
                    ∷ []))
                ∷ []),
          )
          ∷ []),
    )
    ∷ ("format", obj (("type", string "string") ∷ []))
    ∷ ("allOf", obj (("$ref", string "#/definitions/schemaArray") ∷ []))
    ∷ ("anyOf", obj (("$ref", string "#/definitions/schemaArray") ∷ []))
    ∷ ("oneOf", obj (("$ref", string "#/definitions/schemaArray") ∷ []))
    ∷ ("not", obj (("$ref", string "#") ∷ []))
    ∷ [])

abbrev pub json_schema_04 : Value
json_schema_04 = obj (
    ("id", string "http://json-schema.org/draft-04/schema#")
    ∷ ("$schema", string "http://json-schema.org/draft-04/schema#")
    ∷ ("description", string "Core schema meta-schema")
    ∷ ("definitions", definitions)
    ∷ ("type", string "object")
    ∷ ("properties", properties)
    ∷ (
      "dependencies",
      obj (
          ("exclusiveMaximum", arr ((string "maximum") ∷ []))
          ∷ ("exclusiveMinimum", arr ((string "minimum") ∷ []))
          ∷ []),
    )
    ∷ ("default", obj [])
    ∷ [])
