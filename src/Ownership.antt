-- ===== src/Ownership.antt =====
-- Who frees what the crate's types hold: the calls after which a pointer belongs to CZMQ again, or is
-- freed.
pub mod Sending
pub mod Giving
pub mod Reading
pub mod Balance
pub mod Handles
pub mod Makers
pub mod Users
pub mod Commands
pub mod Session
pub mod Invariant
pub mod Keeps
pub mod Made
pub mod Used
pub mod Speaking
pub mod Commanded
pub mod Steps
pub mod Leaks
pub mod Lent
pub mod Texts
use rust_czmq.Prelude.{◌==◌, Option, none, some, List, [], ◌∷◌, if◌then◌else◌}
use rust_czmq.Ffi.{Ptr, null, Event, Machine, Run, done, failed, panicked, stuck}
use rust_czmq.Ffi.Calls.{
  VoidCall, SlotCall, zmsg_destroy, zframe_destroy, zactor_destroy, zcert_destroy, zsock_destroy,
  zpoller_destroy, zhashx_destroy, zcertstore_destroy, zcertstore_insert, zmsg_send, zframe_send,
  zmsg_prepend, zmsg_append, zmsg_addmsg, zactor_send,
}

-- CZMQ's destructors do nothing on NULL.
abbrev pub unless_null : Ptr → Option Ptr
unless_null p = if p == null then none else some p

-- A call that takes the pointer out of its slot leaves NULL there, where there was none before.
abbrev taken : Ptr → Ptr → Option Ptr
taken p slot = if slot == null then unless_null p else none

-- The destructors, and the store that takes a certificate for its own.
abbrev destroyed : VoidCall → Option Ptr
destroyed (zmsg_destroy p) = unless_null p
destroyed (zframe_destroy p) = unless_null p
destroyed (zactor_destroy p) = unless_null p
destroyed (zcert_destroy p) = unless_null p
destroyed (zsock_destroy p) = unless_null p
destroyed (zpoller_destroy p) = unless_null p
destroyed (zhashx_destroy p) = unless_null p
destroyed (zcertstore_destroy p) = unless_null p
destroyed (zcertstore_insert _ p) = unless_null p
destroyed _ = none

abbrev taken_by : SlotCall → Ptr → Option Ptr
taken_by (zmsg_send p _) slot = taken p slot
taken_by (zframe_send p _ _) slot = taken p slot
taken_by (zmsg_prepend _ p) slot = taken p slot
taken_by (zmsg_append _ p) slot = taken p slot
taken_by (zmsg_addmsg _ p) slot = taken p slot
taken_by (zactor_send _ p) slot = taken p slot
taken_by _ slot = none

-- The pointer that an event releases, if any.
abbrev pub released_by : Event → Option Ptr
released_by (Event.did q) = destroyed q
released_by (Event.got_slot q _ slot) = taken_by q slot
released_by _ = none

abbrev pub prepended : Option Ptr → List Ptr → List Ptr
prepended none ps = ps
prepended (some p) ps = p ∷ ps

-- The pointers that a trace releases, the latest first.
abbrev pub releases : List Event → List Ptr
releases [] = []
releases (e ∷ es) = prepended (released_by e) (releases es)

module _ {W A : Type 0} where
  -- The releases up to the end of a run, if the run ends.
  abbrev pub all_releases : Run W A → Option (List Ptr)
  all_releases (done _ s) = some (releases s.trace)
  all_releases (failed _ s) = some (releases s.trace)
  all_releases (panicked s) = some (releases s.trace)
  all_releases stuck = none
