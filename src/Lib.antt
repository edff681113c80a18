-- ===== src/Lib.antt =====
-- The scripts that the worker puts in front of a user's JavaScript, modelled and proved.
--
-- The worker (Java: core, core-server, cli) evaluates a user's repository in a JavaScript engine. Before
-- the user's main.js it evaluates four scripts of its own, from
-- core/src/main/resources/com/sandbox/runtime/v2/js/version_3: sandbox-libraries.js makes the
-- third-party libraries available, sandbox-validator.js and sandbox-templates.js define what a request
-- and a response offer, and sandbox-patch.js puts them on the two objects that every callback gets,
-- offers `Sandbox.define` and `Sandbox.soap`, and `require`. These scripts are what is modelled here,
-- with the older version_1 and version_2 beside them.
--
-- The modules, and what they are about:
--   Prelude        Boolean tests, lists, strings and association lists that the others share.
--   Js             values, truth, `typeof`, errors and results. What the engine provides is `Engine`.
--   Paths          sandbox-patch.js, `findRoot`, `resolveAsFile`, `normalizeName`, `Require.resolve`.
--   Modules        sandbox-patch.js, `Module` with the setter of `exports`, and `Require.cache`.
--   Require        sandbox-patch.js, `Require`, `loadModule`, `Module._load`, `readFile`.
--                  `BigStep` gives `require` by rules, without a depth; there, `Registers` and
--                  `Accepted` are about the routes that the files register while they require each
--                  other, and `Loading` about files that find what they ask for.
--   Routes         sandbox-patch.js, `define` and `soap`.
--   Wrapping       sandbox-patch.js, `wrapCallback`, and the host's request as `render` passes it.
--   Session        `wrapCallback` and the methods together: the two objects that all callbacks share,
--                  through a sequence of requests, with the validator of any version (`Scripts`).
--                  `Private` is the specification, a callback with a request of its own;
--                  `Isolation`, `Persistence` and `Calls` are about the errors, the error
--                  callbacks and the calls of the host of one request after others, and `Methods`
--                  about what stays on the objects.
--   Polyfills      sandbox-patch.js, `isLength`, `startsWith` and `endsWith` of version_2, and which of
--                  them are added to the prototypes.
--   Validator      sandbox-validator.js: `Params` the path of a parameter and the getters, `Checks`
--                  the methods of a check and chains of calls, `Sanitizers` `updateParam` and
--                  `filter`, `Errors` `validationErrors` and `validationErrorsJson`.
--   Schemas        sandbox-validator.js, `checkJsonSchema` and the meta-schemas that it adds.
--   Templates      sandbox-templates.js, `renderWithRequest`.
--   Libraries      sandbox-libraries.js, `evalLibrary`, the lazy proxies and the globals.
--   Versions       the scripts of all the versions as records of what they define: `One` and `Two` for
--                  version_1 and version_2, whose texts differ from version_3 in the validator
--                  (`Legacy`), the library files, two more names of the mock and two extensions of
--                  the prototype of strings.
--   Tests          concrete calls.
-- A child named Laws, or by what it proves, holds the proofs.
--
-- How the code corresponds. A value is a tree (Js.Value), except in Require, where what a module
-- exports may be a reference: writes into an exported object are shared and need no step. A call that
-- may throw gives a `Result`; where the code writes to the request, a call gives the request with its
-- result. `require` threads the store of the modules and the cache through the run of a script. A
-- user's script is a tree of what it does to the loader and the routes: assignments to
-- `module.exports`, calls of `require`, `Sandbox.define` and `Sandbox.soap` with what follows each
-- result, and its end. Its text is the host's, and `compile` gives the script of a text. A callback of
-- a route is the events of its run: the methods that it calls and, by name, the functions of the host's
-- request and response; the calls that reach the host are recorded with the object and the arguments.
-- The wrapped request holds the same parameters, query and body as the host's request, as objects
-- that both share: what `updateParam` assigns in them shows in the host's request that a later
-- rendering of the same callback passes on (`current_request`).
--
-- Bounds. Only `require_from` has one, the depth of nested calls of `require`: it gives none where the
-- depth is met. Each file enters the cache before its code runs, so that, where files export truthy
-- values, the depth that is needed is one more than the number of files that are not in the cache.
-- Numbers are doubles, written ± n / 2 ^ k.
--
-- Parameters. What no file of these scripts defines is a parameter: the host's files, templates,
-- libraries and `__mock.define` (records Host, RenderHost, LibraryHost, SchemaHost), the third-party
-- `validator` (record Library), Ajv and amanda, `JSON.parse`, and the engine's conversions and
-- inherited members (Engine).
--
-- Not modelled. The Java of the worker, the third-party scripts beside the four, the built-in
-- methods of an array that a chain of checks could be called with by name, apart from `isLength`,
-- objects with a `toUpperCase` or `split` of their own, the order of integer-like keys, a user's
-- writes into `Require.cache`, a user's writes into the wrapped request other than by its methods, a
-- request of the host with a property named like one of those methods or with a function for its
-- parameters, query or body, and what the error callback does, of which it is recorded that it is
-- called. `wrapCallback` is modelled up to its call of the callback. What a function of the host
-- gives back to a callback is part of the callback's events, which do not depend on it otherwise, and
-- a function of the host's request or response that throws is not modelled.
pub mod Prelude
pub mod Js
pub mod Paths
pub mod Routes
pub mod Modules
pub mod Require
pub mod Polyfills
pub mod Validator
pub mod Schemas
pub mod Templates
pub mod Libraries
pub mod Wrapping
pub mod Session
pub mod Versions
pub mod Tests
