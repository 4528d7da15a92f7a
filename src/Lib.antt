-- ===== src/Lib.antt =====
-- A verification of the reference implementation of QDMI, the Quantum Device Management Interface.
--
-- The program. A device implements the functions that include/qdmi/device.h declares: the device
-- is initialized and finalized, sessions are allocated, configured and initialized, properties of
-- the device, its sites and its operations are queried, and jobs are created in a session, given
-- programs, submitted, polled, waited for or canceled, and asked for results. Every query shares
-- the parameters `size`, `value` and `size_ret`. examples/device/src/cxx_device.cpp is the
-- reference device, with five qubits; it simulates nothing and draws its results at random.
-- examples/driver/qdmi_example_driver.cpp is the example driver: it loads device libraries by a
-- configuration file, and gives clients the functions that include/qdmi/client.h declares.
--
-- The files.
--   Base, Base/Tests, Base/Lists, Base/Bytes: shared names, Boolean tests, lists, C memory.
--   Constants and its children: the enumerations of include/qdmi/constants.h and
--     include/qdmi/client.h, and the macro QDMI_IS_INVALID_ENUM_VALUE.
--   Output: the macros ADD_SINGLE_VALUE_PROPERTY, ADD_STRING_PROPERTY and ADD_LIST_PROPERTY.
--     Output/Serves says what a query owes to its caller; Output/Strings is about C strings.
--   Device/State, Device/Tables: the structures and the constant tables of cxx_device.cpp.
--   Device/Query: the functions query_device_property, query_site_property and
--     query_operation_property; Device/Query/Tables states the first two as tables, and
--     Device/Query/Operations the third.
--   Device/Session: initialize, finalize, session_init, session_set_parameter and the creation of
--     jobs. Device/Programs: set_programs, get_program, get_program_status. Device/Jobs: set_parameter,
--     query_property, cancel, check, wait. Device/Submit: submit. Device/Results: get_results and
--     the functions behind it, with the histogram in Device/Results/Histogram and the
--     theorems in Device/Results/Laws, Device/Results/Indices, Device/Results/Keys and
--     Device/Results/Counts.
--   Device/Invariant and its children: what a job satisfies, and that each operation keeps it.
--     The files called Laws, and Device/Programs/Roundtrip, are about the file above. Device/World:
--     the device with all its sessions and jobs under sequences of calls; Device/World/Reach is
--     about the states that they reach, Device/World/Kept, Device/World/Submitted and
--     Device/World/Lasting about what they leave of a job that was submitted. Device/Outcome: a job
--     from its submission to its results.
--   Interface: the codes that the comments of include/qdmi/device.h document for each function;
--     Device/Contracts and its children: the reference device and these codes. It initializes a
--     session again where device.h allows one initialization, which Device/Contracts leaves out.
--   Driver: the sessions of examples/driver/qdmi_example_driver.cpp, each of which opens one device
--     session for every configured device: QDMI_session_init. Driver/Client:
--     QDMI_session_set_parameter, QDMI_session_query_session_property, QDMI_device_create_job and
--     the id of QDMI_device_query_device_property. Driver/Balance and Driver/Sessions keep the account of the device sessions; Driver/Access is about Driver/Client.
--     Driver/Libraries: QDMI_library_load and QDMI_initialize_driver, with their account in
--     Driver/Libraries/Balance. Driver/Paths: Is_path_allowed and where the configuration is read
--     from. Driver/Life: QDMI_session_alloc and QDMI_session_free. Driver/Jobs: the functions on
--     jobs, and those on sites and operations, which call the library of their device; its
--     child Reference puts the reference device there, and Retrieval is about
--     QDMI_session_retrieve_job_by_id.
--   Fomac: examples/fomac/example_fomac.cpp, the class FoMaC, a client that reads a device's
--     properties; Fomac/Getters has its getters, Fomac/Reading is about the values they read, and
--     Fomac/Reference is the class as a client of the reference device.
--   Tool: examples/tool/example_tool.cpp, which places a circuit on a device by replacing text.
--     Tool/Replace is about replace_all_occurrences, Tool/Passes and Tool/Circuit about what it
--     does to the text of a circuit, Tool/Compile and Tool/Refusals about compile,
--     and Tool/Stack about the tool on a device of the driver in the reference device's library.
--   Template: templates/device/src/my_device.cpp.
--   Device/Sample, Fomac/Sample and the files called Tests: the theorems at concrete inputs.
--
-- Reading the model. A handler takes the structure that its handle points to, `none` for a null
-- handle, and returns the status code with what it leaves there. Undefined behaviour of the C++
-- code (a write past a buffer, a read past an array, a dangling handle) and an exception that
-- leaves a C function are the result `none` of an Option. Memory is a list of bytes, low byte
-- first; `size_t`, pointers and `double` have eight bytes and enumerations four. Arithmetic on
-- `size_t` that may wrap is written out modulo 2 ^ 64.
--
-- Parameters. `double` values are the numbers of their bits, and std::norm, +, std::sqrt, / and
-- std::log2 are arguments (Float), as are the random generator of <random> (Random), the strings that
-- the build generates and the addresses that the linker gives to constant objects (Build), and the
-- memory allocator, which tells for each allocation of a call whether it succeeds. max_programs,
-- max_shots and max_string are the greatest sizes of the containers of the standard library.
--
-- Fuel. `digits` divides by ten at most as often as its fuel, which is one more than the number;
-- `replace_from` has one more than the length of the text, and each of its rounds passes at least
-- one of its characters. Every other loop runs over a list.
--
-- For the driver, the dynamic loader, the file system and the functions of the device libraries are
-- arguments on a state of their own, and the calls that acquire or release something are recorded.
-- For the class FoMaC the queries of the client interface are arguments, as are the operations on
-- `double`; for the tool, what `std::regex` matches. The memory of these two is assumed to suffice,
-- as is that of the path operations of the driver.
--
-- Not modelled: the interface's header files beyond their enumerations and the documented codes of
-- device.h, as they are declarations and documentation; logging, tests and build files. The device is
-- single-threaded here, as its code has no locks. dlopen and dlsym are taken to be functions of the
-- name, and the allocation of strings while a library is loaded is assumed to succeed.
pub mod Base
pub mod Constants
pub mod Output
pub mod Device
pub mod Driver
pub mod Fomac
pub mod Tool
pub mod Template
pub mod Interface
