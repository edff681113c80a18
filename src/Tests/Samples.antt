-- ===== src/Tests/Samples.antt =====
-- A small engine for the concrete calls: objects inherit nothing, and a value that is no string reads
-- as the text of an object.
use worker_cli.Prelude.{String, false, refl}
use worker_cli.Js.{Value, undefined, string, Engine}

abbrev pub shown_as : Value → String
shown_as (string s) = s
shown_as _ = "[object Object]"

abbrev pub plain_engine : Engine
plain_engine = record {
  to_string = shown_as;
  to_string_string = λ s. refl;
  builtin_member = λ v k. undefined;
  assign_builtin = λ v k w. v;
  has_own_builtin = λ v k. false;
}
