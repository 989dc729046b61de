-- ===== src/PcmRing/Tests.antt =====
-- The ring at concrete inputs; a sample is its own 16 bits.
use radio_cat_rs.Base.{ℕ, ◌≡◌, refl, none, List, [], ◌∷◌, ◌++◌, drop, All, arith}
use radio_cat_rs.PcmRing.{PcmRing, encode, push_open, push, read, delivered}
use radio_cat_rs.PcmRing.Newest.{IsWf, push_open-newest}
use radio_cat_rs.PcmRing.Stream
use radio_cat_rs.PcmRing.Stream.{RingOp, Conserves, IsWhole, trace, trace-Conserves}

abbrev word : ℕ → ℕ
word s = s

abbrev full : PcmRing
full = record { bytes = 1 ∷ 0 ∷ 2 ∷ 0 ∷ []; closed = none; capacity = 4; overruns = 0 }

full-IsWf : IsWf full
full-IsWf = (refl, refl, omega arith, omega arith, omega arith)

push_drops_oldest : (push word (3 ∷ []) full).bytes ≡ 2 ∷ 0 ∷ 3 ∷ 0 ∷ []
unfolding push push_open encode
push_drops_oldest = refl

-- A read of one byte takes half of the sample 1. The next overrun drops its other half, counts nothing,
-- and the reader's next byte is the low half of the sample 2.
odd_read_shifts :
    ((read 1 full).1 ≡ delivered (1 ∷ []))
    × ((push word (3 ∷ []) (read 1 full).0).bytes ≡ 2 ∷ 0 ∷ 3 ∷ 0 ∷ [])
    × ((push word (3 ∷ []) (read 1 full).0).overruns ≡ 0)
unfolding push push_open encode read
odd_read_shifts = (refl, refl, refl)

push_open-newest_example :
    ((push_open word (3 ∷ []) full).bytes ≡ drop 2 (full.bytes ++ encode word (3 ∷ [])))
    × ((push_open word (3 ∷ []) full).overruns ≡ 1)
    × IsWf (push_open word (3 ∷ []) full)
push_open-newest_example = push_open-newest word (3 ∷ []) full full-IsWf

abbrev ops : List (RingOp ℕ)
ops =
    Stream.pushes (3 ∷ 4 ∷ [])
    ∷ Stream.reads 2
    ∷ Stream.pushes (5 ∷ [])
    ∷ Stream.closes "stopped"
    ∷ Stream.reads 4
    ∷ []

ops-IsWhole : All (IsWhole {Sample = ℕ}) ops
ops-IsWhole = (tt, (refl, (tt, (tt, (refl, tt)))))

trace-Conserves_example : Conserves full (trace word ops full)
trace-Conserves_example = trace-Conserves word ops full full-IsWf ops-IsWhole
