-- ===== src/Versions/One.antt =====
-- The four scripts of core/src/main/resources/com/sandbox/runtime/v2/js/version_1.
use worker_cli.Prelude.{String, [], ◌∷◌}
use worker_cli.Routes.{define, soap}
use worker_cli.Wrapping.{wrap, request_arguments}
use worker_cli.Paths.{normalize_name, resolve}
use worker_cli.Modules.{new_module, assign_exports}
use worker_cli.Require.{read_file, require_from}
use worker_cli.Validator.{Request, on_validation_error}
use worker_cli.Validator.Params.{
  check_getter, body_getter, params_getter, query_getter, header_getter,
}
use worker_cli.Validator.Checks.{call_method}
use worker_cli.Validator.Sanitizers.{call_sanitizer, update_param}
use worker_cli.Validator.Errors.{validation_errors, validation_errors_json}
use worker_cli.Templates.{render_with_request}
use worker_cli.Libraries.{Versions, library, get_library_object, trap, install}
use worker_cli.Js.{Result}
use worker_cli.Versions.{Mock, Loader, Checker, RequestMethods, Template, LibraryScript}
use worker_cli.Versions.Legacy.{AmandaHost, legacy_check, legacy_check_json_schema}

-- sandbox-patch.js
abbrev pub mock_1 : Mock
mock_1 = record {
  define = define;
  soap = soap;
  wrap = wrap;
  request_arguments = request_arguments;
  names = "Sandbox" ∷ "Sandmox" ∷ "mock" ∷ [];
}

abbrev pub loader_1 : Loader
loader_1 = record {
  normalize_name = normalize_name;
  resolve = resolve;
  read_file = read_file;
  new_module = new_module;
  assign_exports = assign_exports;
  require = require_from;
}

-- sandbox-validator.js
abbrev pub checker_1 : Checker
checker_1 = record {
  sanitizer = call_sanitizer;
  check_param = legacy_check;
  call_method = call_method;
}

abbrev pub request_methods_1 : RequestMethods
request_methods_1 = record {
  update_param = update_param;
  check = check_getter;
  check_body = body_getter;
  check_params = params_getter;
  check_query = query_getter;
  check_header = header_getter;
  on_validation_error = on_validation_error;
  validation_errors = validation_errors;
  validation_errors_json = validation_errors_json;
}

abbrev pub check_json_schema_1 : AmandaHost → String → Request → Result (Unit {0}) × Request
check_json_schema_1 = legacy_check_json_schema

-- sandbox-templates.js
abbrev pub template_1 : Template
template_1 = render_with_request

-- sandbox-libraries.js
abbrev pub version_1 : Versions
version_1 = record {
  faker = library "version_1" "faker-2.1.2.min.js" "faker";
  lodash = library "version_1" "lodash-2.4.1.min.js" "_";
  moment = library "version_1" "moment-2.8.2.min.js" "moment";
  validator = library "version_1" "validator.min.js" "validator";
  schema_validator = library "version_1" "amanda-0.4.8.min.js" "amanda";
}

abbrev pub libraries_1 : LibraryScript
libraries_1 = record {
  files = version_1;
  get_library_object = get_library_object;
  trap = trap;
  install = λ h log. install h version_1 log;
}
