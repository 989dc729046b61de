-- ===== src/PcmRing/Stream.antt =====
-- A ring from its first push on: what the reader is given, with what is still held, is what was
-- offered, with whole samples left out.
use radio_cat_rs.Base.{
  ℕ, ◌+◌, ◌-◌, ◌*◌, ◌/◌, ◌%◌, ◌^◌, ◌≡◌, refl, sym, ap, ◌∙◌, subst, List, [], ◌∷◌, ◌++◌, append-nil,
  is_empty, ltb, length, length-append, length-drop, length-take, drop, take-append-drop, min, none,
  some, arith, All, Option-cases, Bool-cases, inl, inr,
}
use Prim.Native.String.{String}
use radio_cat_rs.Base.Bytes.{Bytes}
use radio_cat_rs.PcmRing.{
  PcmRing, encode, push, push_open, close, read, Read, delivered, ended, waits,
}
use radio_cat_rs.PcmRing.Newest.{IsWf, length-encode, push_open-newest}
use radio_cat_rs.PcmRing.Samples.{Thinned, Thinned-refl, Thinned-drop, Thinned-seq}

pub data RingOp (Sample : Type 0) : Type 0 where
  pushes : List Sample → RingOp Sample
  closes : String → RingOp Sample
  reads : ℕ → RingOp Sample

-- The ring, the bytes offered to it while it was open, and the bytes delivered.
pub record Trace : Type 0 where
  pub ring : PcmRing
  pub offered : Bytes
  pub taken : Bytes

abbrev pub bytes_of : Read → Bytes
bytes_of (delivered bytes) = bytes
bytes_of (ended reason) = []
bytes_of waits = []

-- The reader asks for whole samples.
abbrev pub IsWhole : {Sample : Type 0} → RingOp Sample → Type 0
IsWhole (pushes samples) = Unit
IsWhole (closes reason) = Unit
IsWhole (reads out) = out % 2 ≡ 0

-- What a step from `ring` to `t` may do, `lost` samples left out.
abbrev pub Conserves : PcmRing → Trace → Type 0
Conserves ring t =
    (lost : ℕ) × Thinned lost (ring.bytes ++ t.offered) (t.taken ++ t.ring.bytes)
    × (t.ring.overruns ≡ (ring.overruns + lost) % 2 ^ 64)
    × IsWf t.ring
    × (length t.offered % 2 ≡ 0)
    × (length t.taken % 2 ≡ 0)

module _ {Sample : Type 0} (to_i16 : Sample → ℕ) where
  abbrev pub step : RingOp Sample → PcmRing → Trace
  step (pushes samples) ring = record {
    ring = push to_i16 samples ring;
    offered = elim ring.closed [ none ↦ encode to_i16 samples | some _ ↦ [] ];
    taken = [];
  }
  step (closes reason) ring = record { ring = close reason ring; offered = []; taken = [] }
  step (reads out) ring = record {
    ring = (read out ring).0;
    offered = [];
    taken = bytes_of (read out ring).1;
  }

  unfoldable pub trace : List (RingOp Sample) → PcmRing → Trace
  trace [] ring = record { ring = ring; offered = []; taken = [] }
  trace (op ∷ ops) ring =
      let first = step op ring in
      let rest = trace ops first.ring in
      record {
        ring = rest.ring;
        offered = first.offered ++ rest.offered;
        taken = first.taken ++ rest.taken;
      }

  Conserves-same :
      (ring : PcmRing)
      → IsWf ring
      → Conserves ring (record { ring = ring; offered = []; taken = [] })
  Conserves-same ring wf = (
    0,
    rw (append-nil ring.bytes) (Thinned-refl ring.bytes wf.0),
    omega (arith, wf.4),
    wf,
    refl,
    refl,
  )

  push_open-Conserves :
      (samples : List Sample) (ring : PcmRing)
      → IsWf ring
      → Conserves ring (record {
        ring = push_open to_i16 samples ring;
        offered = encode to_i16 samples;
        taken = [];
      })
  push_open-Conserves samples ring wf =
      let (newest, count, wf') = push_open-newest to_i16 samples ring wf in
      let surplus = length ring.bytes + 2 * length samples - ring.capacity in
      let came = length-encode to_i16 samples in
      let all = length-append ring.bytes (encode to_i16 samples) in
      (
        surplus / 2,
        subst (Thinned (surplus / 2) (ring.bytes ++ encode to_i16 samples))
            (ap (λ n. drop n (ring.bytes ++ encode to_i16 samples)) (omega (arith, wf.0, wf.1))
              ∙ sym newest)
            (Thinned-drop (surplus / 2) (ring.bytes ++ encode to_i16 samples) (omega (arith, wf.0))
              (omega arith)),
        count,
        wf',
        omega arith,
        refl,
      )

  push-Conserves :
      (samples : List Sample) (ring : PcmRing)
      → IsWf ring
      → Conserves ring (step (pushes samples) ring)
  unfolding push encode
  push-Conserves [] ring wf = elim (Option-cases ring.closed) [
    | inl opened ↦ rw (opened, encode) (Conserves-same ring wf)
    | inr (reason, shut) ↦ rw (shut, encode) (Conserves-same ring wf)
  ]
  push-Conserves (s ∷ samples) ring wf = elim (Option-cases ring.closed) [
    | inl opened ↦ rw (opened, push) (push_open-Conserves (s ∷ samples) ring wf)
    | inr (reason, shut) ↦ rw (shut, push) (Conserves-same ring wf)
  ]

  close-Conserves :
      (reason : String) (ring : PcmRing) → IsWf ring → Conserves ring (step (closes reason) ring)
  unfolding close
  close-Conserves reason ring wf = elim (Option-cases ring.closed) [
    | inl opened ↦ rw (opened, close) (Conserves-same ring wf)
    | inr (reason', shut) ↦ rw (shut, close) (Conserves-same ring wf)
  ]

  read-Conserves :
      (out : ℕ) (ring : PcmRing) → IsWf ring → out % 2 ≡ 0 → Conserves ring (step (reads out) ring)
  unfolding read
  read-Conserves out ring (even_bytes, even_capacity, some_room, fits, word) even_out =
      let n = min (length ring.bytes) out in
      let same = Conserves-same ring (even_bytes, even_capacity, some_room, fits, word) in
      elim (Bool-cases (ltb 0 out)) [
        | inr nothing ↦ rw (nothing, read) same
        | inl some_out ↦ elim (Bool-cases (is_empty ring.bytes)) [
          | inr held ↦
              rw (some_out, held, read)
                (
                  0,
                  rw (take-append-drop n ring.bytes, append-nil ring.bytes)
                      (Thinned-refl ring.bytes even_bytes),
                  omega arith,
                  (
                    omega (arith, length-drop n ring.bytes),
                    even_capacity,
                    some_room,
                    omega (arith, length-drop n ring.bytes),
                    word,
                  ),
                  refl,
                  omega (arith, length-take n ring.bytes),
                )
          | inl drained ↦ elim (Option-cases ring.closed) [
            | inl opened ↦ rw (some_out, drained, opened, read) same
            | inr (reason, shut) ↦ rw (some_out, drained, shut, read) same
          ]
        ]
      ]

  step_lem :
      (op : RingOp Sample) (ring : PcmRing) → IsWf ring → IsWhole op → Conserves ring (step op ring)
  step_lem (pushes samples) ring wf whole = push-Conserves samples ring wf
  step_lem (closes reason) ring wf whole = close-Conserves reason ring wf
  step_lem (reads out) ring wf whole = read-Conserves out ring wf whole

  -- After any sequence of pushes, closes and reads of whole samples, the bytes delivered and then
  -- the bytes still held are the samples held at first and then those offered while the ring was
  -- open, in order, with `lost` whole samples left out; the counter of overruns has grown by
  -- `lost`, and the ring is well formed.
  pub trace-Conserves :
      (ops : List (RingOp Sample)) (ring : PcmRing)
      → IsWf ring
      → All IsWhole ops
      → Conserves ring (trace ops ring)
  unfolding trace
  trace-Conserves [] ring wf whole = Conserves-same ring wf
  trace-Conserves (op ∷ ops) ring wf (whole, wholes) =
      let (lost, thin, count, wf', even_offered, even_taken) = step_lem op ring wf whole in
      let (lost', thin', count', wf'', even_offered', even_taken') =
        trace-Conserves ops (step op ring).ring wf' wholes in
      (
        lost + lost',
        Thinned-seq ring.bytes (step op ring).offered (step op ring).taken (step op ring).ring.bytes
            (trace ops (step op ring).ring).offered (trace ops (step op ring).ring).taken
            (trace ops (step op ring).ring).ring.bytes even_offered' even_taken thin thin',
        omega (arith, count, count'),
        wf'',
        omega (arith, length-append (step op ring).offered (trace ops (step op ring).ring).offered),
        omega (arith, length-append (step op ring).taken (trace ops (step op ring).ring).taken),
      )
