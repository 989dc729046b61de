-- ===== src/Native/Queue.antt =====
-- The queue of cat-rigctl/src/native_bridge.rs between the consoles and the pump: `enqueue`, whose newest
-- setting of a control replaces the one that waits, and `take_queued`. A reply channel is a number.
use radio_cat_rs.Base.{
  ℕ, ◌+◌, Bool, true, false, ◌||◌, ◌≡◌, refl, sym, ap, ◌∙◌, List, [], ◌∷◌, ◌++◌, append_assoc,
  append-nil, any, ◌==◌, if◌then◌else◌, Option, none, some, arith,
}
use radio_cat_rs.Native.{
  Command, set_frequency, set_mode, set_split, set_memory_channel, set_filter_width, set_if_shift,
  read_meter, retune, read_devices, attach_device, read_state, set_keyer_speed, arm_cw_transmit,
  send_cw_text, abort_cw, disarm_cw,
}

-- `Slot`.
pub data Slot : Type 0 where
  frequency : (vfo : ℕ) → Slot
  mode split memory_channel filter_width if_shift retuning keyer_speed : Slot

-- `Slot::of`.
unfoldable pub slot_of : Command → Option Slot
slot_of (set_frequency vfo hz) = some (frequency vfo)
slot_of (set_mode m) = some mode
slot_of (set_split enabled) = some split
slot_of (set_memory_channel channel) = some memory_channel
slot_of (set_filter_width hz) = some filter_width
slot_of (set_if_shift hz) = some if_shift
slot_of (retune hz) = some retuning
slot_of (read_meter kind) = none
slot_of read_state = none
slot_of read_devices = none
slot_of (attach_device device) = none
slot_of (set_keyer_speed wpm) = some keyer_speed
slot_of (arm_cw_transmit callsign acknowledged key_down_cap_s) = none
slot_of (send_cw_text text) = none
slot_of abort_cw = none
slot_of disarm_cw = none

abbrev pub same_slot : Slot → Slot → Bool
same_slot (frequency a) (frequency b) = a == b
same_slot mode mode = true
same_slot split split = true
same_slot memory_channel memory_channel = true
same_slot filter_width filter_width = true
same_slot if_shift if_shift = true
same_slot retuning retuning = true
same_slot keyer_speed keyer_speed = true
same_slot _ _ = false

abbrev pub is_slot : Slot → Option Slot → Bool
is_slot slot none = false
is_slot slot (some other) = same_slot other slot

-- `Pending`.
pub record Pending : Type 0 where
  pub command : Command
  pub reply : ℕ

-- Whether the newer command replaces the queued one.
unfoldable pub replaces : Command → Pending → Bool
replaces newer queued = elim (slot_of newer) [
  | none ↦ false
  | some slot ↦ is_slot slot (slot_of queued.command)
]

-- The queued commands that stay, and those that are told that they are superseded.
unfoldable pub kept : Command → List Pending → List Pending
kept newer [] = []
kept newer (queued ∷ queue) = elim (replaces newer queued) [
  | true ↦ kept newer queue
  | false ↦ queued ∷ kept newer queue
]

unfoldable pub superseded : Command → List Pending → List Pending
superseded newer [] = []
superseded newer (queued ∷ queue) = elim (replaces newer queued) [
  | true ↦ queued ∷ superseded newer queue
  | false ↦ superseded newer queue
]

-- The queue, with what has been told that it is superseded.
pub record Queue : Type 0 where
  pub waiting : List Pending
  pub told : List Pending

unfoldable pub enqueue : Pending → Queue → Queue
unfolding kept superseded
enqueue p q = record {
  waiting = kept p.command q.waiting ++ (p ∷ []);
  told = q.told ++ superseded p.command q.waiting;
}

-- `take_queued`.
unfoldable pub take_queued : Queue → Queue × List Pending
take_queued q = (record q { waiting = [] }, q.waiting)

unfoldable pub enqueue_all : List Pending → Queue → Queue
enqueue_all [] q = q
enqueue_all (p ∷ ps) q = enqueue_all ps (enqueue p q)

-- Of the commands in order those that no later one replaces.
unfoldable pub is_replaced : Pending → List Pending → Bool
is_replaced p later = any (λ (newer : Pending). replaces newer.command p) later

unfoldable pub latest : List Pending → List Pending
unfolding is_replaced
latest [] = []
latest (p ∷ later) = elim (is_replaced p later) [ true ↦ latest later | false ↦ p ∷ latest later ]

is_replaced-append :
    (p : Pending) (later : List Pending) (last : Pending)
    → is_replaced p (later ++ (last ∷ [])) ≡ (is_replaced p later || replaces last.command p)
unfolding is_replaced
is_replaced-append p [] last = ground arith
is_replaced-append p (q ∷ later) last = ground (arith, is_replaced-append p later last)

latest-append :
    (ps : List Pending) (last : Pending)
    → latest (ps ++ (last ∷ [])) ≡ kept last.command (latest ps) ++ (last ∷ [])
unfolding latest kept
latest-append [] last = refl
latest-append (p ∷ ps) last = ground (arith, is_replaced-append p ps last, latest-append ps last)

-- How often a reply channel stands in a list.
abbrev pub times : ℕ → List Pending → ℕ
times reply [] = 0
times reply (p ∷ ps) = (if p.reply == reply then 1 else 0) + times reply ps

times-append :
    (reply : ℕ) (a b : List Pending) → times reply (a ++ b) ≡ times reply a + times reply b
times-append reply [] b = omega arith
times-append reply (p ∷ a) b = omega (arith, times-append reply a b)

times-kept :
    (reply : ℕ) (newer : Command) (queue : List Pending)
    → times reply (kept newer queue) + times reply (superseded newer queue) ≡ times reply queue
unfolding kept superseded
times-kept reply newer [] = refl
times-kept reply newer (p ∷ queue) = ground (arith, times-kept reply newer queue)

waiting-latest :
    (ps earlier : List Pending) (told : List Pending)
    → (enqueue_all ps (record { waiting = latest earlier; told = told })).waiting
      ≡ latest (earlier ++ ps)
unfolding enqueue_all enqueue
waiting-latest [] earlier told = ap latest (sym (append-nil earlier))
waiting-latest (p ∷ ps) earlier told =
    let told' = told ++ superseded p.command (latest earlier) in
    ap (λ (w : List Pending). (enqueue_all ps (record { waiting = w; told = told' })).waiting)
      (sym (latest-append earlier p))
    ∙ waiting-latest ps (earlier ++ (p ∷ [])) told'
    ∙ ap latest (append_assoc earlier (p ∷ []) ps)

answered-once :
    (ps : List Pending) (q : Queue) (reply : ℕ)
    → times reply (enqueue_all ps q).waiting + times reply (enqueue_all ps q).told
      ≡ times reply q.waiting + times reply q.told + times reply ps
unfolding enqueue_all enqueue
answered-once [] q reply = omega arith
answered-once (p ∷ ps) q reply = omega (
  arith,
  answered-once ps (enqueue p q) reply,
  times-append reply (kept p.command q.waiting) (p ∷ []),
  times-append reply q.told (superseded p.command q.waiting),
  times-kept reply p.command q.waiting,
)

-- Behind any commands on an empty queue: those wait, in order, that no later one replaces, and every
-- other is told once that it is superseded.
pub enqueue_all_lem :
    (ps : List Pending) (reply : ℕ)
    → let q = enqueue_all ps (record { waiting = []; told = [] }) in
      (q.waiting ≡ latest ps) × (times reply (latest ps) + times reply q.told ≡ times reply ps)
enqueue_all_lem ps reply =
    let q = enqueue_all ps (record { waiting = []; told = [] }) in
    let same : q.waiting ≡ latest ps = unfold latest in waiting-latest ps [] [] in
    (
      same,
      ap (λ (w : List Pending). times reply w + times reply q.told) (sym same)
          ∙ answered-once ps (record { waiting = []; told = [] }) reply
          ∙ omega arith,
    )
