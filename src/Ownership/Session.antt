-- ===== src/Ownership/Session.antt =====
-- A program that uses the crate: the owned handles that it holds, and the calls of methods that it
-- makes, one after the other.
use rust_czmq.Prelude.{ℕ, Option, none, some, List, [], ◌∷◌}
use rust_czmq.Rust.Text.{Bytes}
use rust_czmq.Ffi.{Ptr, Czmq, Machine, Run, done, failed, panicked, stuck, Io, map_run}
use rust_czmq.Ownership.Commands.{Command, commanded}
use rust_czmq.Ownership.Handles.{Handle, cert_store, actor, Session, taken_at}
use rust_czmq.Ownership.Makers.{Maker, made_by, borrowed_message}
use rust_czmq.Ownership.Users.{User, used_by, owned_cert_store}
use rust_czmq.ZAuth
use rust_czmq.ZMsg

-- One call: of a maker, of a method that makes a frame and consumes it, of a method that speaks to an
-- actor, or of one that consumes the handle at a place of the list; `ZAuth::new` with the store there
-- consumes it and makes an actor.
pub data Op : Type 0 where
  make : Maker → Op
  pop_bytes : Ptr → Op
  push_bytes add_bytes : Ptr → Bytes → Op
  command : Ptr → Command → Op
  consume : ℕ → User → Op
  new_auth_with : ℕ → Op

module _ (c : Czmq) where
  open c use {World}

  abbrev pub end_of : {A : Type 0} → Run World A → Machine World → Machine World
  end_of (done _ s') s = s'
  end_of (failed _ s') s = s'
  end_of (panicked s') s = s'
  end_of stuck s = s

  abbrev pub with_made : List Handle → Run World (Option Handle) → Machine World → Session World
  with_made hs (done (some h) s') s = record { held = h ∷ hs; machine = s' }
  with_made hs (done none s') s = record { held = hs; machine = s' }
  with_made hs (failed _ s') s = record { held = hs; machine = s' }
  with_made hs (panicked s') s = record { held = hs; machine = s' }
  with_made hs stuck s = record { held = hs; machine = s }

  abbrev pub after_use : Session World → List Handle → Option (Io World (Unit {0})) → Session World
  after_use p rest none = p
  after_use p rest (some run) = record { held = rest; machine = end_of (run p.machine) p.machine }

  abbrev pub after_taken : Session World → User → Option (Handle × List Handle) → Session World
  after_taken p user none = p
  after_taken p user (some (h, rest)) = after_use p rest (used_by c user h)

  abbrev pub after_auth : Session World → Option (Handle × List Handle) → Session World
  after_auth p none = p
  after_auth p (some (cert_store q, rest)) =
      with_made rest
        (map_run (λ a. some (actor a.zactor.zactor))
          (ZAuth.new c (some (owned_cert_store c q)) p.machine))
        p.machine
  after_auth p (some (_, rest)) = p

  -- One call of the program.
  unfoldable pub step : Op → Session World → Session World
  unfolding made_by used_by taken_at commanded ZMsg.popbytes ZMsg.pushbytes ZMsg.addbytes ZAuth.new
  step (make maker) p = with_made p.held (made_by c maker p.machine) p.machine
  step (pop_bytes q) p = record p {
    machine = end_of (ZMsg.popbytes c (borrowed_message c q) p.machine) p.machine;
  }
  step (push_bytes q b) p = record p {
    machine = end_of (ZMsg.pushbytes c (borrowed_message c q) b p.machine) p.machine;
  }
  step (add_bytes q b) p = record p {
    machine = end_of (ZMsg.addbytes c (borrowed_message c q) b p.machine) p.machine;
  }
  step (command a k) p = record p { machine = end_of (commanded c a k p.machine) p.machine }
  step (new_auth_with i) p = after_auth p (taken_at i p.held)
  step (consume i user) p = after_taken p user (taken_at i p.held)

  unfoldable pub steps : List Op → Session World → Session World
  unfolding step
  steps [] p = p
  steps (op ∷ ops) p = steps ops (step op p)
