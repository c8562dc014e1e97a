-- ===== src/ZMonitor/Events.antt =====
-- The texts of the events.
use rust_czmq.Prelude.{sym, ap, ◌∙◌, ◌↔◌, ◌≡◌, ◌≢◌, refl, sym, Bool-cases, inl, inr, if◌then◌else◌}
use rust_czmq.Rust.Text.{Bytes, IsText, bytes_eq, bytes_eq_iff, is_utf8}
use rust_czmq.ZMonitor.{ZMonitorEvents, unknown, to_str, from_str}

-- The text of each event is read back as that event.
pub from_str-to_str : (e : ZMonitorEvents) → from_str (to_str e) ≡ e
unfolding from_str to_str bytes_eq
from_str-to_str unknown = refl
from_str-to_str _ = refl

pub to_str-IsText : (e : ZMonitorEvents) → IsText (to_str e)
unfolding to_str is_utf8
to_str-IsText unknown = refl
to_str-IsText _ = refl

abbrev Reads : Bytes → ZMonitorEvents → Type 0
Reads s e = e ≢ unknown → to_str e ≡ s

-- One arm of the match, for the text of `e`, in front of the others.
arm :
    (s : Bytes) (e : ZMonitorEvents) {e' : ZMonitorEvents}
    → Reads s e'
    → Reads s (if bytes_eq s (to_str e) then e else e')
arm s e rest = elim (Bool-cases (bytes_eq s (to_str e))) [
  | inl h ↦ rw h (λ _. sym ((bytes_eq_iff s (to_str e)).0 h))
  | inr h ↦ rw h rest
]

-- A text that is read as a known event is the text of that event, letter for letter.
pub to_str-from_str : (s : Bytes) → from_str s ≢ unknown → to_str (from_str s) ≡ s
unfolding from_str to_str
to_str-from_str s = arm s ZMonitorEvents.connected (
    arm s ZMonitorEvents.connect_delayed (
      arm s ZMonitorEvents.connect_retried (
        arm s ZMonitorEvents.listening (
          arm s ZMonitorEvents.bind_failed (
            arm s ZMonitorEvents.accepted (
              arm s ZMonitorEvents.accept_failed (
                arm s ZMonitorEvents.closed (
                  arm s ZMonitorEvents.close_failed (
                    arm s ZMonitorEvents.disconnected (
                      arm s ZMonitorEvents.monitor_stopped
                        (arm s ZMonitorEvents.all (λ h. absurd (h refl)))))))))))))

-- A text is read as an event other than `Unknown` exactly if it is the text of that event.
pub from_str_iff :
    (s : Bytes) (e : ZMonitorEvents) → e ≢ unknown → (from_str s ≡ e) ↔ (s ≡ to_str e)
from_str_iff s e known = (
  λ read. sym (to_str-from_str s (λ u. known (sym read ∙ u))) ∙ ap to_str read,
  λ same. ap from_str same ∙ from_str-to_str e,
)
