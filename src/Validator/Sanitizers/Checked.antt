-- ===== src/Validator/Sanitizers/Checked.antt =====
-- A parameter that is sanitized and then checked
-- (core/src/main/resources/com/sandbox/runtime/v2/js/version_3/sandbox-validator.js, `sanitize`,
-- `updateParam` and `checkParam`).
use worker_cli.Prelude.{
  String, true, false, ◌≡◌, refl, ◌∙◌, none, some, List, [], ◌∷◌, lookup, split, nonempty, ◌&&◌,
  eq_refl,
}
use worker_cli.Js.{Value, undefined, object, string, Fields, fields, is_nullish, Engine, member, ok}
use worker_cli.Validator.{Request, Library, contains, is_sanitizer}
use worker_cli.Validator.Params.{
  Getter, body_getter, params_getter, query_getter, get_from, parse_param, param_name, param_value,
  step, or_empty,
}
use worker_cli.Validator.Checks.{check_param}
use worker_cli.Validator.Sanitizers.{update_param, call_sanitizer}
use worker_cli.Validator.Sanitizers.Laws.{
  Place, in_params, in_query, in_body, at_place, own_field, place_of, is_place, returned,
  with_objects, Written, update_param-frame,
}

-- The getter of `checkParams`, `checkQuery` or `checkBody`, which reads the place.
abbrev pub getter_at : Place → Engine → Request → Getter
getter_at in_params = params_getter
getter_at in_query = query_getter
getter_at in_body = body_getter

getter_at-place :
    (p : Place) (e : Engine) (req : Request) (part : Value)
    → getter_at p e req part ≡ get_from e (at_place req p) part
unfolding params_getter query_getter body_getter
getter_at-place in_params e req part = refl
getter_at-place in_query e req part = refl
getter_at-place in_body e req part = refl

get_from-own_field :
    (e : Engine) (owner : Value) (name : String) (v : Value)
    → own_field owner name ≡ some v
    → get_from e owner (string name) ≡ ok v
unfolding get_from member
get_from-own_field e (object fs) name v h = rw (e.to_string_string name, h)
get_from-own_field e _ name v h = cc h

is_place_self : (p : Place) → is_place (some p) p ≡ true
is_place_self in_params = refl
is_place_self in_query = refl
is_place_self in_body = refl

or_empty-some : (v : Value) → is_nullish v ≡ false → or_empty v ≡ v
or_empty-some v h = rw h

-- A check of a parameter with a single part.
check_param-single :
    (e : Engine) (getter : Getter) (name : String) (fail_msg v : Value)
    → split b'.' name ≡ name ∷ []
    → nonempty name ≡ true
    → getter (string name) ≡ ok v
    → is_nullish v ≡ false
    → check_param e getter (string name) fail_msg
      ≡ ok (record { param = name; fail_msg = fail_msg; value = v })
unfolding check_param parse_param param_name param_value
check_param-single e getter name fail_msg v single full gives defined =
    rw (single, full, step) (rw (gives, e.to_string_string name, or_empty-some v defined))

pub Written-place :
    (e : Engine) (name : String) (v : Value) (before after : Request) (p : Place)
    → Written e name v before (some p) after
    → own_field (at_place after p) name ≡ some v
Written-place e name v before after p (runs, frame, headers, errors) =
    frame p name ∙ rw (is_place_self p, eq_refl name)

sanitize-writes :
    (e : Engine) (l : Library) (name method : String) (given v : Value) (args : List Value)
    (before after : Request) (p : Place)
    → (contains l.methods method && is_sanitizer method) ≡ true
    → l.call method (given ∷ args) ≡ ok v
    → update_param e name v before ≡ ok (returned (some p) v, after)
    → call_sanitizer e l name given method args before ≡ ok (v, after)
unfolding call_sanitizer
sanitize-writes e l name method given v args before after p offered gives writes =
    rw offered (rw gives (rw writes))

-- What `filter` computes is what the next check of the parameter tests: where the route's
-- parameters, the query and the body are objects that inherit nothing under the name, and the
-- parameters have no field `hasOwnProperty`, a sanitizer of the library that gives a value other
-- than undefined and null, called for a name that is not empty and has no dot, and that some place
-- has, gives this value, and the check of the first such place carries the name and this value.
pub check_param-call_sanitizer :
    (e : Engine) (l : Library) (name method : String) (given v fail_msg : Value) (args : List Value)
    (ps qs bs : Fields) (base : Request) (p : Place)
    → ((fs : Fields) → e.builtin_member (object fs) name ≡ undefined)
    → lookup "hasOwnProperty" (fields ps) ≡ none
    → place_of (with_objects ps qs bs base) name ≡ some p
    → (contains l.methods method && is_sanitizer method) ≡ true
    → l.call method (given ∷ args) ≡ ok v
    → is_nullish v ≡ false
    → split b'.' name ≡ name ∷ []
    → nonempty name ≡ true
    → (after : Request) × (call_sanitizer e l name given method args (with_objects ps qs bs base)
        ≡ ok (v, after))
      × (check_param e (getter_at p e after) (string name) fail_msg
          ≡ ok (record { param = name; fail_msg = fail_msg; value = v }))
check_param-call_sanitizer e l name method given v fail_msg args ps qs bs base p plain shown has
      offered gives defined single full =
    let before = with_objects ps qs bs base in
    let (after, written) = update_param-frame e name plain v ps qs bs base shown in
    let at_p = rw has at written in
    (
      after,
      sanitize-writes e l name method given v args before after p offered gives at_p.0,
      check_param-single e (getter_at p e after) name fail_msg v single full
          (getter_at-place p e after (string name)
            ∙ get_from-own_field e (at_place after p) name v
                (Written-place e name v before after p at_p))
          defined,
    )
