-- ===== src/Schemas/Draft06.antt =====
-- `jsonSchema06`, the meta-schema of draft 6, as the script gives it to the schema validator
-- (core/src/main/resources/com/sandbox/runtime/v2/js/version_3/sandbox-validator.js).
use worker_cli.Prelude.{true, false, [], ◌∷◌}
use worker_cli.Js.{Value, boolean, string, obj, arr, num}

abbrev definitions : Value
definitions = obj (
    (
      "schemaArray",
      obj (
          ("type", string "array")
          ∷ ("minItems", num 1)
          ∷ ("items", obj (("$ref", string "#") ∷ []))
          ∷ []),
    )
    ∷ ("nonNegativeInteger", obj (("type", string "integer") ∷ ("minimum", num 0) ∷ []))
    ∷ (
      "nonNegativeIntegerDefault0",
      obj (
          (
            "allOf",
            arr (
                (obj (("$ref", string "#/definitions/nonNegativeInteger") ∷ []))
                ∷ (obj (("default", num 0) ∷ []))
                ∷ []),
          )
          ∷ []),
    )
    ∷ (
      "simpleTypes",
      obj (
          (
            "enum",
            arr (
                (string "array")
                ∷ (string "boolean")
                ∷ (string "integer")
                ∷ (string "null")
                ∷ (string "number")
                ∷ (string "object")
                ∷ (string "string")
                ∷ []),
          )
          ∷ []),
    )
    ∷ (
      "stringArray",
      obj (
          ("type", string "array")
          ∷ ("items", obj (("type", string "string") ∷ []))
          ∷ ("uniqueItems", boolean true)
          ∷ ("default", arr [])
          ∷ []),
    )
    ∷ [])

abbrev properties : Value
properties = obj (
    ("$id", obj (("type", string "string") ∷ ("format", string "uri-reference") ∷ []))
    ∷ ("$schema", obj (("type", string "string") ∷ ("format", string "uri") ∷ []))
    ∷ ("$ref", obj (("type", string "string") ∷ ("format", string "uri-reference") ∷ []))
    ∷ ("title", obj (("type", string "string") ∷ []))
    ∷ ("description", obj (("type", string "string") ∷ []))
    ∷ ("default", obj [])
    ∷ ("examples", obj (("type", string "array") ∷ ("items", obj []) ∷ []))
    ∷ ("multipleOf", obj (("type", string "number") ∷ ("exclusiveMinimum", num 0) ∷ []))
    ∷ ("maximum", obj (("type", string "number") ∷ []))
    ∷ ("exclusiveMaximum", obj (("type", string "number") ∷ []))
    ∷ ("minimum", obj (("type", string "number") ∷ []))
    ∷ ("exclusiveMinimum", obj (("type", string "number") ∷ []))
    ∷ ("maxLength", obj (("$ref", string "#/definitions/nonNegativeInteger") ∷ []))
    ∷ ("minLength", obj (("$ref", string "#/definitions/nonNegativeIntegerDefault0") ∷ []))
    ∷ ("pattern", obj (("type", string "string") ∷ ("format", string "regex") ∷ []))
    ∷ ("additionalItems", obj (("$ref", string "#") ∷ []))
    ∷ (
      "items",
      obj (
          (
            "anyOf",
            arr (
                (obj (("$ref", string "#") ∷ []))
                ∷ (obj (("$ref", string "#/definitions/schemaArray") ∷ []))
                ∷ []),
          )
          ∷ ("default", obj [])
          ∷ []),
    )
    ∷ ("maxItems", obj (("$ref", string "#/definitions/nonNegativeInteger") ∷ []))
    ∷ ("minItems", obj (("$ref", string "#/definitions/nonNegativeIntegerDefault0") ∷ []))
    ∷ ("uniqueItems", obj (("type", string "boolean") ∷ ("default", boolean false) ∷ []))
    ∷ ("contains", obj (("$ref", string "#") ∷ []))
    ∷ ("maxProperties", obj (("$ref", string "#/definitions/nonNegativeInteger") ∷ []))
    ∷ ("minProperties", obj (("$ref", string "#/definitions/nonNegativeIntegerDefault0") ∷ []))
    ∷ ("required", obj (("$ref", string "#/definitions/stringArray") ∷ []))
    ∷ ("additionalProperties", obj (("$ref", string "#") ∷ []))
    ∷ (
      "definitions",
      obj (
          ("type", string "object")
          ∷ ("additionalProperties", obj (("$ref", string "#") ∷ []))
          ∷ ("default", obj [])
          ∷ []),
    )
    ∷ (
      "properties",
      obj (
          ("type", string "object")
          ∷ ("additionalProperties", obj (("$ref", string "#") ∷ []))
          ∷ ("default", obj [])
          ∷ []),
    )
    ∷ (
      "patternProperties",
      obj (
          ("type", string "object")
          ∷ ("additionalProperties", obj (("$ref", string "#") ∷ []))
          ∷ ("default", obj [])
          ∷ []),
    )
    ∷ (
      "dependencies",
      obj (
          ("type", string "object")
          ∷ (
            "additionalProperties",
            obj (
                (
                  "anyOf",
                  arr (
                      (obj (("$ref", string "#") ∷ []))
                      ∷ (obj (("$ref", string "#/definitions/stringArray") ∷ []))
                      ∷ []),
                )
                ∷ []),
          )
          ∷ []),
    )
    ∷ ("propertyNames", obj (("$ref", string "#") ∷ []))
    ∷ ("const", obj [])
    ∷ (
      "enum",
      obj (("type", string "array") ∷ ("minItems", num 1) ∷ ("uniqueItems", boolean true) ∷ []),
    )
    ∷ (
      "type",
      obj (
          (
            "anyOf",
            arr (
                (obj (("$ref", string "#/definitions/simpleTypes") ∷ []))
                ∷ (obj (
                    ("type", string "array")
                    ∷ ("items", obj (("$ref", string "#/definitions/simpleTypes") ∷ []))
                    ∷ ("minItems", num 1)
                    ∷ ("uniqueItems", boolean true)
                    ∷ []))
                ∷ []),
          )
          ∷ []),
    )
    ∷ ("format", obj (("type", string "string") ∷ []))
    ∷ ("allOf", obj (("$ref", string "#/definitions/schemaArray") ∷ []))
    ∷ ("anyOf", obj (("$ref", string "#/definitions/schemaArray") ∷ []))
    ∷ ("oneOf", obj (("$ref", string "#/definitions/schemaArray") ∷ []))
    ∷ ("not", obj (("$ref", string "#") ∷ []))
    ∷ [])

abbrev pub json_schema_06 : Value
json_schema_06 = obj (
    ("$schema", string "http://json-schema.org/draft-06/schema#")
    ∷ ("$id", string "http://json-schema.org/draft-06/schema#")
    ∷ ("title", string "Core schema meta-schema")
    ∷ ("definitions", definitions)
    ∷ ("type", arr ((string "object") ∷ (string "boolean") ∷ []))
    ∷ ("properties", properties)
    ∷ ("default", obj [])
    ∷ [])
