-- ===== src/Witnesses/Calls.antt =====
-- Calls of the C library with fixed replies.
use rust_czmq.Prelude.{
  ◌≡◌, ◌≢◌, refl, ◌⊎◌, true, none, some, List, [], ◌∷◌, ◌++◌, map, arith, ◌↔◌, ◌<◌, ◌≤◌, ◌+◌, ℕ,
  ◌-◌, ◌^◌,
}
use rust_czmq.Rust.Text.{Bytes, ascii, has_nul, until_nul}
use rust_czmq.Error.{from_nul_error, null_ptr}
use rust_czmq.Error.Causes
use rust_czmq.Error.Causes.{cause_text, ZMsgError}
use rust_czmq.Error.Texts.{display-injective_parts}
use rust_czmq.Ffi.{
  pos, negsuc, minus_one, null, Czmq, Event, Machine, done, failed, panicked, result_of, error_of,
  ◌>>◌,
}
use rust_czmq.Ffi.Calls.{zmsg_new, zsock_disconnect, zsock_unbind, zsock_type}
use rust_czmq.Ownership.{releases, all_releases}
use rust_czmq.Ownership.Giving.{given_away-releases, into_raw-releases}
use rust_czmq.Witnesses.Toy.{constant}
use rust_czmq.ZActor
use rust_czmq.ZActor.{ZActor}
use rust_czmq.ZAuth
use rust_czmq.ZAuth.Command.{command-message}
use rust_czmq.ZFrame.{ZFrame}
use rust_czmq.ZHashX
use rust_czmq.ZHashX.Keys.{key_with_nul}
use rust_czmq.ZMonitor
use rust_czmq.ZMonitor.{ZMonitorEvents, ZMonitor}
use rust_czmq.ZMonitor.Attrs.{added, set_attrs-message, GivenUp}
use rust_czmq.ZMonitor.Events.{from_str_iff}
use rust_czmq.ZMonitor.Reply.{get_attr-to_str}
use rust_czmq.ZMsg
use rust_czmq.ZMsg.{ZMsg}
use rust_czmq.ZPoller
use rust_czmq.ZPoller.Timeouts.{timeout_c-u32}
use rust_czmq.ZSock
use rust_czmq.ZSock.{ZSock}
use rust_czmq.ZSock.Endpoints.{joined, concat_endpoints-joined}
use rust_czmq.ZSock.Options
use rust_czmq.ZSock.Options.Codes.{zsock_type_of_lem, type_code}
use rust_czmq.ZSock.Options.Timeouts.{rcvtimeo-set_rcvtimeo, linger-set_linger}
use rust_czmq.ZSock.Texts.{detach_lem, checked}

-- Every pointer is 5, every code 0, slots are emptied, and texts read "CLOSED".
abbrev good : Czmq
good = constant (λ q. 5) (pos 0) null (ascii "CLOSED")

-- Every code is -1, and slots keep their pointer, which is 5.
abbrev bad : Czmq
bad = constant (λ q. 5) minus_one 5 (ascii "CLOSED")

-- Every code is 11.
abbrev eleven : Czmq
eleven = constant (λ q. 5) (pos 11) null []

abbrev at_start : Machine good.World
at_start = record { world = 0; trace = [] }

abbrev message : ZMsg
message = record { zmsg = 5; owned = true }

abbrev frame : ZFrame
frame = record { zframe = 5; owned = true }

abbrev actor : ZActor
actor = record { zactor = 6; owned = true }

abbrev socket : ZSock
socket = record { zsock = 7; owned = true }

abbrev monitor : ZMonitor
monitor = record { zactor = actor }

given_away-releases_example :
    (all_releases (ZMsg.prepend bad message frame at_start) ≡ some [])
    × (all_releases (ZMsg.append bad message frame at_start) ≡ some [])
    × (all_releases (ZMsg.addmsg bad message message at_start) ≡ some [])
    × (all_releases (ZActor.send bad actor message at_start) ≡ some [])
given_away-releases_example = given_away-releases bad message message frame actor at_start

into_raw-releases_example :
    (s' : Machine good.World) × (ZActor.into_raw good actor at_start ≡ done 6 s')
    × (releases s'.trace ≡ 6 ∷ [])
into_raw-releases_example = into_raw-releases good actor at_start refl (ground arith)

from_str_iff_example :
    (ZMonitor.from_str (ascii "ALL") ≡ ZMonitorEvents.all)
    ↔ (ascii "ALL" ≡ ZMonitor.to_str ZMonitorEvents.all)
from_str_iff_example = from_str_iff (ascii "ALL") ZMonitorEvents.all (ground arith)

-- The machine after a first `zmsg_new`.
abbrev with_message : Machine good.World
with_message = record {
  world = (good.ptr_call zmsg_new at_start.world).1;
  trace = Event.got_ptr zmsg_new 5 ∷ at_start.trace;
}

set_attrs-message_example :
    ((s' : Machine good.World) × (ZMonitor.set_attrs good monitor
          (ZMonitorEvents.closed ∷ [])
          at_start
        ≡ ZActor.send good actor message s')
      × (releases s'.trace ≡ [])
      × (added 5 s'.trace ≡ ascii "LISTEN" ∷ map ZMonitor.to_str (ZMonitorEvents.closed ∷ [])))
    ⊎ GivenUp good {A = Unit {0}} 5
        (ascii "LISTEN" ∷ map ZMonitor.to_str (ZMonitorEvents.closed ∷ []))
        with_message
        (ZMonitor.set_attrs good monitor (ZMonitorEvents.closed ∷ []) at_start)
set_attrs-message_example = set_attrs-message good monitor (ZMonitorEvents.closed ∷ []) at_start

get_attr-to_str_example :
    (s' : Machine good.World) × (ZMonitor.get_attr good monitor at_start
      ≡ done (ZMonitor.event ZMonitorEvents.closed) s')
    × (releases s'.trace ≡ 5 ∷ [])
unfolding ZMonitor.to_str
get_attr-to_str_example =
    get_attr-to_str good monitor at_start ZMonitorEvents.closed (ground arith) (ground arith) refl

concat_endpoints-joined_example : ZSock.concat_endpoints (ascii "a" ∷ ascii "b" ∷ []) ≡ ascii "a,b,"
unfolding joined
concat_endpoints-joined_example = concat_endpoints-joined (ascii "a") (ascii "b" ∷ [])

abbrev endpoints : List Bytes
endpoints = ascii "a" ∷ ascii "b" ∷ []

detach_lem_example :
    (ZSock.unbind good socket (ascii "a") at_start
      ≡ checked good at_start (zsock_unbind 7 (ascii "a" ++ 7 ∷ [])))
    × (ZSock.disconnect good socket (ascii "a") at_start
        ≡ checked good at_start (zsock_disconnect 7 (ascii "a" ++ 7 ∷ [])))
unfolding has_nul until_nul
detach_lem_example = detach_lem good socket (ascii "a") at_start refl

abbrev type_eleven : Machine eleven.World
type_eleven = record { world = 0; trace = Event.got_int (zsock_type 7) (pos 11) ∷ [] }

zsock_type_of_lem_example :
    ((t : ZSock.Options.SocketType)
      → pos 11 ≡ pos (type_code t)
      → ZSock.Options.zsock_type_of eleven socket at_start ≡ done t type_eleven)
    × (((t : ZSock.Options.SocketType) → pos 11 ≢ pos (type_code t))
        → ZSock.Options.zsock_type_of eleven socket at_start ≡ panicked type_eleven)
zsock_type_of_lem_example = zsock_type_of_lem eleven socket at_start

rcvtimeo-set_rcvtimeo_example :
    result_of (
      (ZSock.Options.set_rcvtimeo eleven socket (some (pos 11))
          >> ZSock.Options.rcvtimeo eleven socket)
        at_start)
    ≡ some (some (pos 11))
unfolding ZSock.Options.timeout_c
rcvtimeo-set_rcvtimeo_example =
    rcvtimeo-set_rcvtimeo eleven socket at_start (some (pos 11)) (ground arith) refl

timeout_c-u32_example :
    (((3000000000 < 2 ^ 31) × (ZPoller.timeout_c (some 3000000000) ≡ pos 3000000000))
      ⊎ ((2 ^ 31 ≤ 3000000000)
          × ((n : ℕ) × (ZPoller.timeout_c (some 3000000000) ≡ negsuc n)
              × (3000000000 + (n + 1) ≡ 2 ^ 32))))
    × ((ZPoller.timeout_c (some 3000000000) ≡ ZPoller.timeout_c none) ↔ (3000000000 ≡ 2 ^ 32 - 1))
timeout_c-u32_example = timeout_c-u32 3000000000 (ground arith)

linger-set_linger_example :
    (minus_one ≢ minus_one
      → result_of (
          (ZSock.Options.set_linger bad socket minus_one >> ZSock.Options.linger bad socket)
            at_start)
        ≡ some minus_one)
    × (minus_one ≡ minus_one
        → error_of (
            (ZSock.Options.set_linger bad socket minus_one >> ZSock.Options.linger bad socket)
              at_start)
          ≡ some ZSock.non_zero_error)
linger-set_linger_example = linger-set_linger bad socket at_start minus_one refl

abbrev table : ZHashX.ZHashX
table = record { zhashx = 8; owned = true }

abbrev bad_key : Bytes
bad_key = 97 ∷ 0 ∷ []

key_with_nul_example :
    (ZHashX.insert_raw good table bad_key 9 at_start ≡ failed (from_nul_error bad_key) at_start)
    × (ZHashX.update good table bad_key 9 at_start ≡ ZHashX.update good table [] 9 at_start)
    × (ZHashX.delete good table bad_key at_start ≡ ZHashX.delete good table [] at_start)
    × (ZHashX.lookup good table bad_key at_start ≡ ZHashX.lookup good table [] at_start)
unfolding has_nul
key_with_nul_example = key_with_nul good table bad_key 9 at_start refl

display-injective_parts_example :
    (null_ptr ≡ null_ptr)
    × (cause_text (λ f. []) (Causes.zmsg ZMsgError.cmd_failed)
        ≡ cause_text (λ f. []) (Causes.zmsg ZMsgError.cmd_failed))
display-injective_parts_example =
    display-injective_parts (λ f. []) ZMsg.null_error ZMsg.null_error refl

abbrev auth : ZAuth.ZAuth
auth = record { zactor = actor }

command-message_example :
    ((s' : Machine good.World) × (ZAuth.command good auth (ascii "ALLOW") (ascii "::1") at_start
        ≡ (ZActor.send good actor message >> ZActor.sock_wait good actor) s')
      × (releases s'.trace ≡ [])
      × (added 5 s'.trace ≡ ascii "ALLOW" ∷ ascii "::1" ∷ []))
    ⊎ GivenUp good {A = Unit {0}} 5
        (ascii "ALLOW" ∷ ascii "::1" ∷ [])
        with_message
        (ZAuth.command good auth (ascii "ALLOW") (ascii "::1") at_start)
unfolding has_nul
command-message_example = command-message good auth (ascii "ALLOW") (ascii "::1") at_start refl refl
