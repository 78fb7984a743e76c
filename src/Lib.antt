-- ===== src/Lib.antt =====
-- Cyclone DDS C++: the serialization of samples, the arithmetic of time, the quality of service of
-- entities, wait sets with their conditions and the callbacks of listeners.
--
-- The C++ binding turns samples into CDR, the wire format of DDS, by streams. Code that idlc
-- generates calls a stream's operations for the members of a type in turn: start_struct,
-- first_entity, start_member, write or read of the member, finish_member, next_entity and so on.
-- All streams share cdr_stream; basic_cdr_stream, xcdr_v1_stream and xcdr_v2_stream add what their
-- encoding puts around members. Durations and times stand beside it, in the API of the library, and
-- so do the policies of entities: a delegate holds a value, checks it and moves it to and from the
-- dds_qos_t of the C library, and each kind of entity has a set of such delegates with flags.
-- A wait set waits for conditions that are attached to it, and both keep a list of each other; the C
-- library calls the listeners of an entity from its threads, until the entity is closed.
--
-- Which file models what (paths from the root of the repository; the streams' headers are in
-- src/ddscxx/include/org/eclipse/cyclonedds/core/cdr, their code is in
-- src/ddscxx/src/org/eclipse/cyclonedds/core/cdr):
--   Cdr.CustomStack  custom_stack of cdr_stream.hpp.
--   Cdr.State        the members of cdr_stream and xcdr_v2_stream as the record Stream, and Outcome:
--                    what an operation returns, with the stream as it leaves it. `failed` is the
--                    return of false or of a null pointer, `fault` a failed assertion or a read
--                    below a stack.
--   Cdr.Stream       the operations of cdr_stream.cpp under their names; raise is status(toadd).
--   Cdr.Bytes        byte_swap and the bytes of an object.
--   Cdr.Primitive    read, write, move and max of arithmetic types (cdr_stream.hpp).
--   Cdr.Text         read_string, write_string, move_string and max_string (cdr_stream.hpp).
--   Cdr.Enums        read, write, move and max of enumerations (all three stream headers).
--   Cdr.Properties   entity_properties.hpp, entity_properties.cpp: the description of a type's
--                    members as a vector of entries, and a pointer as an index into it.
--   Cdr.Properties.Keys  the erasing and finding of keys, and append_struct_contents.
--   Cdr.Properties.Linking  the first loop of finish, which links members, levels and types.
--   Cdr.Properties.Endpoints  key_endpoint, add_key and set_key_values.
--   Cdr.Properties.KeyChains  link_keys_unsorted, link_keys_sorted and finish.
--   Cdr.Members      the completeness check of cdr_stream.cpp, and basic_cdr_ser.cpp.
--   Cdr.V2           extended_cdr_v2_ser.hpp and .cpp: V2.Headers has the delimiters and the member
--                    headers, V2.Structs the starts and finishes, V2.Entities the search for members.
--   Cdr.V1           extended_cdr_v1_ser.hpp and .cpp, in the same parts.
--   Time.Result      TimeHelper.hpp, and the exceptions as values.
--   Time.Duration    src/ddscxx/src/dds/core/Duration.cpp.
--   Time.Instant     src/ddscxx/src/dds/core/Time.cpp.
--   Qos.Conversions  convertDuration, convertTime, convertByteSeq and convertStringSeq of
--                    src/ddscxx/src/org/eclipse/cyclonedds/core/MiscUtils.cpp.
--   Qos.Kinds        src/ddscxx/include/dds/core/policy/PolicyKind.hpp, and the enumerations of the C
--                    library.
--   Qos.Policies     the delegates of core/policy/PolicyDelegate.hpp and .cpp: Delegate is the value of
--                    each, Check has check and check_against, ToC and FromC have set_c_policy
--                    and set_iso_policy as functions of the value, Transfer on a dds_qos_t.
--   Qos.Library      the C library that they use, an interface: its dds_qos_t with the functions
--                    dds_qset_... and dds_qget_..., and what is documented of them.
--   Qos.Properties   PropertyDelegate and BinaryPropertyDelegate of PolicyDelegate.cpp; Calls is what
--                    they use of the C library.
--   Qos.Sets         TopicQosDelegate, PublisherQosDelegate and SubscriberQosDelegate; of
--                    DataReaderQosDelegate and DataWriterQosDelegate the check and operator =.
--   Qos.Entities     ddsc_qos of DataReaderQosDelegate, DataWriterQosDelegate and
--                    DomainParticipantQosDelegate, with their property policies; Members has the members
--                    that the classes declare.
--   Core.Reports     src/ddscxx/src/org/eclipse/cyclonedds/core/ReportUtils.cpp: exceptions by code.
--   Core.Waitsets    WaitSetDelegate.cpp, ConditionDelegate.cpp, GuardConditionDelegate.cpp and
--                    StatusConditionDelegate.cpp of core/cond: the record World has what all delegates
--                    hold, Attach the attaching, detaching and closing, Waiting wait and dispatch. The
--                    C library is the interfaces Calls and Waits, of which nothing is assumed.
--   Core.Callbacks   obtain_callback_lock, release_callback_lock and prevent_callbacks of
--                    core/EntityDelegate.cpp as steps of any number of threads, which are counted by the
--                    place where they stand: callbacks as in core/ListenerDispatcher.cpp, and calls of
--                    prevent_callbacks as in DataReader::close, also from a listener.
--   Core.Status      StatusMask of src/ddscxx/include/dds/core/status/State.hpp, and convertStatusMask of
--                    MiscUtils.cpp; a mask is its bits.
--   Core.Listeners   enable and listener_set of core/EntityDelegate.cpp; what dds_set_listener does is
--                    the interface Library.
-- The other files hold lemmas and theorems, named for what they prove, and Runs hold concrete inputs.
--
-- The memory behind m_buffer is a function from offsets to bytes. The integers of 32 and 64 bits
-- wrap where the code lets them wrap; a signed overflow, which C++ leaves undefined, is the
-- result `undefined` of the time modules. The order of the bytes of an object
-- is that of the machine, the field `native` of Stream, so that a theorem on a writer and a reader
-- covers two machines. A single stream is on one machine.
--
-- Loops: the search for members in a mutable struct has fuel `rounds`, one round more than the
-- bytes up to the end of what may be read; a round takes four bytes at least, so that the fuel is
-- enough, which is shown for XCDR2. Walks along the chains of entries have the length of the vector
-- as fuel, which no chain without a cycle exceeds: the links of a type lead to later entries. A walk
-- of KeyChains that has not ended with its fuel is `none`, and one of the completeness check a fault.
--
-- Wait sets: one call runs at a time. Delegates live on, their destructors do not run, and functors
-- of the program change no delegate. Where a call ends by an exception, the state has what was
-- written before it.
--
-- Not modelled: floating point (from_secs and to_secs), the conversion of members by the generated
-- code, the C library under the binding, the text of exceptions, the other operations of
-- entities, read and query conditions.
pub mod Common
pub mod Cdr
pub mod Time
pub mod Qos
pub mod Core
