-- ===== src/Lib.antt =====
-- The generators of the TON SDK's bindings and documentation (tools/ in the repository): an API
-- description, api.json, is parsed and written out as a TypeScript module or as pages of
-- documentation. Besides them, the scripts that build the client library (ton_client/*.js).
--
-- The parts, and the modules that model them:
--   tools/api.ts, the data types and parseApi          Api/Types, Api/Parse
--   tools/api.ts, class Code: identifiers               Api/Naming
--   tools/api.ts, class Code: findType                  Api/Find
--   tools/api.ts, class Code: getAppObject and
--     getFunctionInfo                                   Api/Info
--   tools/ts-code.ts: fixFieldName, typeName, jsDoc     Ts/Names, Ts/JsDoc
--   tools/ts-code.ts: type, field, typeVariant, typeDef Ts/Types
--   tools/ts-code.ts: typeVariantConstructors           Ts/Constructors
--   tools/ts-code.ts: paramsDecls, functionInterface,
--     functionImpl                                      Ts/Functions
--   tools/ts-code.ts: appObjectInterface,
--     appObjectDispatchImpl                             Ts/AppObject
--   tools/ts-code.ts: module, modules                   Ts/Modules
--   tools/docs.ts: summaryOf to appObjectTypeRef        Docs/Marks
--   tools/docs.ts: type, fieldType, field, typeVariant  Docs/Types
--   tools/docs.ts: tupleFields, structFields            Docs/Tuples
--   tools/docs.ts: functionInterface, typeDef,
--     appObjectTypeDef                                  Docs/Functions
--   tools/docs.ts: module, modules                      Docs/Modules
--   tools/index.ts: the commands docs and binding       Index
--   ton_client/build-lib.js: options, getOption         Build/Options
--   ton_client/build-lib.js: spawnProcess               Build/Process
--   ton_client/build-lib.js: spawnAll                   Build/Parallel
--   ton_client/build-lib.js: tomlVersion, version       Build/Version
--   ton_client/build-lib.js: deleteFolderRecursive      Build/Folders
--   ton_client/build-lib.js: postBuild, gz, main, and
--     ton_client/build.js                               Build/Script
-- Base holds what these share; the modules below each part hold its theorems, and
-- Ts/Balance the reader of brackets that several of them use. A definition is
-- named after the function that it models, in snake case, or after the part of one that it is.
--
-- How the code is modelled. A text is the list of its UTF-16 code units, and the case mappings are
-- those of the ASCII letters. A call returns a value or throws (`Outcome`): a read of a member of
-- `undefined` throws `type_error`, `requiredRefEnum` throws its two messages. The objects of
-- api.json are records; the back pointers `module` and `api` that parseApi sets are arguments. The
-- loops recur on the lists that they run through, and the mutual recursion of `type`, `field` and
-- `typeVariant` on the description of the type, so no fuel is needed. The recursion of the
-- documentation goes on at the type that a reference leads to: there a depth stands for the call
-- stack, and too many references within one another throw `range_error`. The commands return the
-- list of the files that they have written; os.homedir and path.resolve are arguments.
--
-- A spawned process is a machine that takes the events of node one after another, and several at
-- once take an interleaving, in which each event has the index of its process. The deletion of
-- a folder is the list of its calls, carried out on a tree by a model of node's fs. The build is the
-- list of its effects, carried out until one fails; node's path functions are arguments.
--
-- Not modelled: a write of a generated file that fails, the third-party reader of the generators'
-- options, the type ApiError, whose values nothing reads, and the Rust code of the repository.
pub mod Base
pub mod Api
pub mod Ts
pub mod Docs
pub mod Index
pub mod Build
pub mod Tests
