-- ===== src/Lib.antt =====
-- A verification library beside particle-python-wheels, which builds Python wheels for wasm32-wasi.
--
-- The repository's own C code has three parts. libffi-wasi is a port of libffi: it lays out C structures
-- and prepares call interfaces (ffi_cif), and leaves the calls themselves to its host. duckdb-httpfs-wasi
-- lets DuckDB speak HTTP through the WebAssembly component wasi:http: http_client.c is the layer of
-- adapters between C values and the canonical ABI, wasi_http_client.cpp the client above it.
-- duckdb-python/wasi-operator-new.cpp gives DuckDB its operators new and delete.
--
--   Prelude          names, Boolean tests, lists and bit lemmas that the other modules share.
--   Ffi              libffi-wasi.
--     Align          FFI_ALIGN of include/ffi_common.h, on the 32-bit size_t.
--     Store          ffi_type and ffi_status of include/ffi.h.in, the memory of types, the ways a call ends.
--     Returns        "this call returns, and its result meets a condition".
--     Aggregate      initialize_aggregate and ffi_get_struct_offsets of src/prep_cif.c.
--     Cif            ffi_prep_cif, ffi_prep_cif_var and ffi_prep_cif_core of src/prep_cif.c, and
--                    ffi_prep_cif_machdep and ffi_prep_cif_machdep_var of src/ffi.c.
--     Types          the predefined types of src/types.c, with the sizes of C types on wasm32.
--   Bindings         duckdb-httpfs-wasi/http_client.c and http_client.h.
--     Memory         loads from a return area; the C structures for strings, options and results.
--     Abi, Flat      the canonical ABI itself: size, alignment and value of a WIT type in memory, and its value
--                    as numbers. It is the description that the adapters are held against.
--     Variant        a switch over tags, against the cases of a variant.
--     ErrorCode      wasi_http_types_error_code_t, the code that reads one (Lift) and the code that turns one
--                    into numbers (Parts, Lower); Structure is the C structure of a value.
--     Streams        the adapters of wasi:io/streams.
--     Http           the adapters of wasi:http that read an error code.
--     Fields         the adapters of header fields, and those that open a body or the stream of one.
--     Outparam       wasi_http_types_static_response_outparam_set.
--     Free           the free functions of strings and errors. FreeResults, FreeLists: those of results and
--                    of lists of header fields and values.
--     Direct         the adapters that return the number that their import returns.
--     Request        the adapters that get and set the members of a request and the timeouts of its options.
--   Client           duckdb-httpfs-wasi/wasi_http_client.cpp.
--     Url            ParseUrl.
--     Handles        OwnHandle: variables that own handles, and the table of handles that the host keeps.
--     Body           the loops of WasiHTTPClient::Request that write the body of a request and read that of a
--                    response, over the adapters.
--     Text           the string literals of Request.
--     Host           what Request calls, as a record of functions, and the ways in which a request ends.
--     Recorder       such functions that write down each call, with its handle and its answer.
--     Lawful         what a log of calls has to be like, and what the end of a run has to say of it.
--     Send           the parts 1 to 3b of Request: headers, request, dispatch, the body of the request.
--     Receive        its parts 4 to 6: the future, the response, the body of the response.
--     Verbs          Get, Head, Put, Post and Delete.
--     Sample         a small host and DuckDB for tests.
--   Allocation       duckdb-python/wasi-operator-new.cpp.
--
-- State and numbers. An ffi_type stands at an address in a store, and a call takes the store and gives the
-- new one, with a status. Types may be shared between structures, so an initialisation shows in all of
-- them. size_t is taken modulo 2 ^ 32 where the code computes with it. FFI_ASSERT is empty, as without
-- FFI_DEBUG. A call of abort() and a recursion that is deeper than its fuel are ways of their own to end.
-- The fuel bounds the depth of initialize_aggregate; more than the rank of a type in an order in which
-- structures stand above their elements is enough, and a structure that contains itself has no such rank.
--
-- An adapter of http_client.c calls its import once. The import is not code of this repository: it is a
-- parameter that takes the arguments and the outside world and gives the bytes of the return area and the
-- new world. A C variable that no case of a switch assigns is a value of its own (`unset`, `uninit`,
-- `undefined`), which stands for nothing.
--
-- A string of the client is a list of bytes. Its loops take the adapters that they call as parameters, and
-- fuel for their rounds: more than the bytes of a request's body, or than the chunks of a response's body,
-- is enough. A stream that gives chunks for ever keeps the second loop busy for ever, whatever its fuel.
--
-- A run of Request gives its end and the world. Leaving the function destroys the variables that own
-- handles, the last one first. The adapters that Request calls are functions of the world, with the values
-- that their results stand for. To say which calls a request makes, it is run over adapters and handlers
-- that do what any others do and besides write each call into a log, with the handle that it was given:
-- the log is made by the calls alone. DuckDB's HTTPResponse, HTTPHeaders and GetStatusMessage are
-- parameters too. A response handler may throw; an exception out of a content handler is not modelled.
-- That a future has no response although its pollable is ready makes Request free a variable that nothing
-- was written to: an end of its own.
--
-- A free function gives the structure that it leaves and the addresses that it passes to free(). Where a
-- number is passed to the host, it is cut or extended as the code's casts do on wasm32.
--
-- Not modelled: that the functions which Request calls are the adapters of Bindings; ffi_call and the closures of libffi-wasi/src/ffi.c, which pass their arguments to the host;
-- libffi-wasi/src/host_stub.c, which aborts; of http_client.c the drops and borrows of resources, which
-- pass a handle through, http_client_string_dup, and the free functions that do nothing or that free the
-- block of a list of numbers; the counts of borrows in OwnHandle and the class WasiHTTPUtil of
-- wasi_http_client.cpp; duckdb-python/wasi-mman-stub.c, whose functions return 0 or forward; Makefiles,
-- scripts and patches, which are no C code.
pub mod Prelude
pub mod Ffi
pub mod Bindings
pub mod Client
pub mod Allocation
