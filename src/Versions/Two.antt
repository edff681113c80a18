-- ===== src/Versions/Two.antt =====
-- The four scripts of core/src/main/resources/com/sandbox/runtime/v2/js/version_2.
use worker_cli.Prelude.{[], ◌∷◌}
use worker_cli.Routes.{define, soap}
use worker_cli.Wrapping.{wrap, request_arguments}
use worker_cli.Paths.{normalize_name, resolve}
use worker_cli.Modules.{new_module, assign_exports}
use worker_cli.Require.{read_file, require_from}
use worker_cli.Validator.{on_validation_error}
use worker_cli.Validator.Params.{
  check_getter, body_getter, params_getter, query_getter, header_getter,
}
use worker_cli.Validator.Checks.{call_method}
use worker_cli.Validator.Sanitizers.{call_sanitizer, update_param}
use worker_cli.Validator.Errors.{validation_errors, validation_errors_json}
use worker_cli.Templates.{render_with_request}
use worker_cli.Libraries.{Versions, library, get_library_object, trap, install}
use worker_cli.Versions.{Mock, Loader, Checker, RequestMethods, Template, LibraryScript}
use worker_cli.Versions.Legacy.{legacy_check}

-- sandbox-patch.js
abbrev pub mock_2 : Mock
mock_2 = record {
  define = define;
  soap = soap;
  wrap = wrap;
  request_arguments = request_arguments;
  names = "Sandbox" ∷ "Sandmox" ∷ "mock" ∷ [];
}

abbrev pub loader_2 : Loader
loader_2 = record {
  normalize_name = normalize_name;
  resolve = resolve;
  read_file = read_file;
  new_module = new_module;
  assign_exports = assign_exports;
  require = require_from;
}

-- sandbox-validator.js
abbrev pub checker_2 : Checker
checker_2 = record {
  sanitizer = call_sanitizer;
  check_param = legacy_check;
  call_method = call_method;
}

abbrev pub request_methods_2 : RequestMethods
request_methods_2 = record {
  update_param = update_param;
  check = check_getter;
  check_body = body_getter;
  check_params = params_getter;
  check_query = query_getter;
  check_header = header_getter;
  on_validation_error = on_validation_error;
  validation_errors = validation_errors;
  validation_errors_json = validation_errors_json;
}

-- sandbox-templates.js
abbrev pub template_2 : Template
template_2 = render_with_request

-- sandbox-libraries.js
abbrev pub version_2 : Versions
version_2 = record {
  faker = library "version_2" "faker-3.0.1.min.js" "faker";
  lodash = library "version_2" "lodash-4.2.1.min.js" "_";
  moment = library "version_2" "moment-2.11.2.min.js" "moment";
  validator = library "version_2" "validator-4.7.2.min.js" "validator";
  schema_validator = library "version_2" "amanda-0.4.8.min.js" "amanda";
}

abbrev pub libraries_2 : LibraryScript
libraries_2 = record {
  files = version_2;
  get_library_object = get_library_object;
  trap = trap;
  install = λ h log. install h version_2 log;
}
