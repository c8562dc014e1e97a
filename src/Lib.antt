-- ===== src/Lib.antt =====
-- rust-czmq: safe wrappers in Rust around the C library CZMQ. Each type of the crate holds a pointer
-- of CZMQ and mostly a flag `owned`; its methods convert their arguments, call one or two functions of
-- czmq-sys, and turn return codes and null pointers into errors. `Drop` destroys what is owned.
--
-- The C library is not in the repository. It is a parameter, the record `Czmq` of Ffi.antt: a state
-- and a function on it for each shape of call; Ffi/Calls.antt lists the calls. A method is a
-- function from a `Machine`, the library's state and the calls made so far with their replies, to a
-- `Run`: a value, an error, or a panic, with the machine it ends in. What the documentation of CZMQ
-- promises is a hypothesis of the theorem that uses it; where that is more than one line it is a
-- record of laws: FrameLaws (ZFrame/Store), MessageLaws (ZMsg/Store), StoreLaws (ZCertStore/Lookup),
-- CertLaws (ZCert/Meta/Encoding), MsgLaws (ZMsg/Frames), TableLaws (ZHashX/Map), SendLaws
-- (Ownership/Keeps), OptionLaws (ZSock/Options/ReadBack), CursorLaws (ZMsg/Iteration), PipeLaws
-- (ZSock/Delivery), PollerLaws (ZPoller/Readers). Which calls give a pointer that the caller must
-- release is part of that documentation and is written out in Ownership/Balance.
--
-- Which file models which part (paths of the repository on the right):
--   Error, Error/Causes      src/error.rs and the error types at the end of each module
--   Raw                      src/lib.rs (traits RawInterface and Sockish), src/socket.rs
--   ZFrame                   src/zframe.rs
--   ZMsg                     src/zmsg.rs
--   ZList                    src/zlist.rs
--   ZCert, ZCert/Meta        src/zcert.rs, the metadata codec (encode_meta, decode_meta) in Meta
--   ZCertStore               src/zcertstore.rs
--   ZHashX, Colander         src/zhashx.rs, src/colander.rs
--   ZSock, ZSock/Options     src/zsock.rs, the options in Options
--   ZActor, ZAuth, ZMonitor  src/zactor.rs, src/zauth.rs, src/zmonitor.rs
--   ZPoller, ZSys            src/zpoller.rs, src/zsys.rs
--   Rust, Prelude            std's texts and slices, and the names and lemmas shared by all
-- The functions keep their names, but for ZFrame's `data` (data_of), ZSys's `create_pipe` (new_pipe) and
-- ZSock's `zsock_type` (zsock_type_of). Proofs stand below their component; these go further than one call:
--   ZMsg/Frames, Methods     the list of frames that a message stands for, the laws of CZMQ's calls on it,
--                            and what each method does by them
--   ZMsg/Refinement, Queue   sequences of methods: a step relation, and a queue of texts
--   Variables                programs with variables that own what they point to, no two the same
--   ZFrame/Store, Program, Values
--                            frames as values: the laws of CZMQ's calls, programs with variables that hold
--                            frames, and what they do; Allowed, Changing and Reading have each method
--   ZMsg/Store, Program, Values
--                            the same for messages, also where one is put into another: Allowed, Adding,
--                            Changing and Nesting have each method, Nested a message put in and taken out
--   ZCertStore/Lookup        certificates that are put into a store and looked up
--   ZHashX/Map, Refinement   a function from keys to items, and sequences of methods on it
--   Ownership/Balance        which call gives a pointer and which releases it, counted over all calls
--   Ownership/Session        a program: the owned handles it holds, and its calls of methods of every type;
--                            Handles, Makers, Users and Commands have the parts of it, Keeps, Made, Used,
--                            Speaking and Commanded what each call does, Invariant, Steps and Leaks the proofs over all
--   Ownership/Sending, Giving, Reading, Lent, Texts
--                            who releases a pointer after one call
--   Panics                   which methods panic: those that make, give, use up or speak to something
--   ZCert/Meta/LongNames     the metadata of a name that does not fit its length byte
--   ZCert/Meta/Copy          metadata that is encoded and then decoded into another certificate
--   ZMsg/Iteration           the frames of a message by its iterator
--   ZPoller/Readers          the set of sockets of a poller, and sequences of methods on it
--   ZSock/Attach             what `attach` lets C know of the endpoints
--   ZSock/Delivery           texts sent on one socket and received on another
--   ZSock/Options/ReadBack   the options that are texts, set and read back
--   ZSock/Options/Texts, ZSock/Constructors, ZCert/Saving
--                            families of methods that differ in the function they call
-- Witnesses has the libraries to run the code with, and runs at concrete inputs.
--
-- Actors, authentication and the monitor speak to a thread of CZMQ through messages: ZAuth and ZMonitor
-- build a ZMsg, give it to ZActor.send, and wait on the actor's socket.
--
-- Conventions. A byte is a number, a text its bytes; `&str` arguments are any bytes, and what
-- comes from C is checked for UTF-8 where the source checks it. A consumed value is dropped where Rust
-- drops it: a `try!` that leaves a function drops what it holds (`or_drop`). What C reads behind the end
-- of a Rust slice is `beyond`. A box is its address, and so is a borrow of what is in it.
--
-- Loops: `decode_meta` runs on one more round of fuel than there are bytes, and each round takes at least
-- five; `encode_meta` takes the fuel as an argument, and one more than the number of keys is enough.
-- The iteration of a message takes it too, and there it is one more than the number of frames.
--
-- Sequences of methods are lists of operations, so every function on them ends. In a Session a call that
-- panics or fails keeps the machine it ends in, and the program goes on with what it still holds. Borrowed
-- receivers and arguments of a Session are any pointers, also of what was released: the borrow checker's
-- guarantee is not needed there.
--
-- A program with variables assigns what a method makes to a variable, and what was in that is dropped, as
-- Rust does; a variable that holds nothing is not used, since that program does not compile.
--
-- Not modelled: the bindings czmq-sys (czmq-sys: generated declarations of C functions and types
-- with their layout tests), the tests inside the modules, and the memory itself, which is what a pointer
-- that was destroyed points to. What C reads from a freed CString (`ZFrame::print`) is the parameter
-- `freed_text`. `ZSys::create_pipe` is modelled, but is not a call of a Session, whose calls give one pointer.
pub mod Prelude
pub mod Rust
pub mod Error
pub mod Ffi
pub mod Raw
pub mod Variables
pub mod ZFrame
pub mod ZList
pub mod ZMsg
pub mod ZCert
pub mod ZSock
pub mod ZActor
pub mod ZSys
pub mod ZPoller
pub mod ZMonitor
pub mod ZHashX
pub mod Colander
pub mod ZCertStore
pub mod ZAuth
pub mod Ownership
pub mod Panics
pub mod Witnesses
