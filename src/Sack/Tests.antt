-- ===== src/Sack/Tests.antt =====
-- Runs of the SACK code, and its theorems at concrete inputs (crates/protocol/src/sack.rs).
use udpix.Base.{
  ℕ, zero, suc, ◌≤◌, ◌<◌, ◌≡◌, refl, true, false, ◌||◌, ◌&&◌, not, ◌↔◌, ◌⊎◌, List, [], ◌∷◌, ◌++◌,
  some, ltb, ◌==◌, length, get_or, replicate, arith,
}
use udpix.Base.{contains, AscendsFrom, get_or-replicate}
use udpix.Base.F64.{fixed}
use udpix.Sack.Payload.{
  SackPayload, IsPayload, sack_words, starting_at, is_received, mark_received, advance_base,
  missing_seqs, has_bit, serialise, deserialise, wire_size, parsed, panicked, fill_words,
  shift_window, trim_count,
}
use udpix.Sack.Advance.{is_received-advance_base}
use udpix.Sack.Missing.{missing_seqs_lem}
use udpix.Sack.Wire.{deserialise-serialise, deserialise_panics}
use udpix.Sack.Manager.{new, on_packet_received, record_arrival, first_missing, tick}
use udpix.Sack.Arrivals.{IsWindow, record_arrival_lem, starting_at-IsWindow}
use udpix.Sack.History.{Event, arrival, heartbeat, Arrived, step, run, acknowledged-Arrived}

-- Base 100, with 100 and 102 received, as in the unit test `mark_and_query`.
abbrev two_marks : SackPayload
two_marks = record { base_seq = 100; word_count = 1; words = 5 ∷ replicate 15 0 }

two_marks_built : mark_received (mark_received (starting_at 100) 100) 102 ≡ two_marks
unfolding mark_received starting_at
two_marks_built = refl

two_marks_queried :
    (is_received two_marks 100 ≡ true)
    × (is_received two_marks 101 ≡ false)
    × (is_received two_marks 102 ≡ true)
unfolding is_received has_bit
two_marks_queried = (refl, refl, refl)

two_marks_advanced :
    advance_base two_marks 101
    ≡ record { base_seq = 101; word_count = 1; words = 2 ∷ replicate 15 0 }
unfolding advance_base shift_window trim_count
two_marks_advanced = refl

behind_one : (i : ℕ) → 1 ≤ i → get_or two_marks.words i 0 ≡ 0
behind_one zero h = absurd (omega arith)
behind_one (suc i) h = get_or-replicate 15 i 0

two_marks-IsPayload : IsPayload two_marks
two_marks-IsPayload = record {
  base_fits = omega arith;
  count_fits = omega arith;
  sixteen = refl;
  words_fit = omega arith;
  zero_behind = behind_one;
}

is_received-advance_base_example :
    is_received (advance_base two_marks 101) 102 ≡ is_received two_marks 102
is_received-advance_base_example = is_received-advance_base two_marks 101 102 two_marks-IsPayload

missing_seqs_lem_example :
    ((t : ℕ) → contains t (missing_seqs two_marks) ≡ ltb t 1124 && not (is_received two_marks t))
    × AscendsFrom 100 (missing_seqs two_marks)
missing_seqs_lem_example = missing_seqs_lem two_marks (omega arith)

deserialise-serialise_example :
    (wire : List ℕ) × (serialise two_marks (7 ∷ []) ≡ some (7 ∷ wire))
    × (length wire ≡ wire_size two_marks)
    × (deserialise (wire ++ (9 ∷ [])) ≡ parsed two_marks (wire_size two_marks))
deserialise-serialise_example =
    deserialise-serialise two_marks (7 ∷ []) (9 ∷ []) two_marks-IsPayload

-- 17 words announced, and 145 bytes there.
abbrev seventeen : List ℕ
seventeen = replicate 8 0 ++ (17 ∷ replicate 136 0)

seventeen_panics : deserialise seventeen ≡ panicked
unfolding deserialise fill_words
seventeen_panics = refl

deserialise_panics_example : (deserialise seventeen ≡ panicked) ↔ ((sack_words < 17) × (145 ≤ 145))
deserialise_panics_example = deserialise_panics seventeen

record_arrival_lem_example :
    ((t : ℕ)
      → is_received (record_arrival (starting_at 0) 3) t
        ≡ is_received (starting_at 0) t || (3 == t && true))
    × IsWindow (record_arrival (starting_at 0) 3)
unfolding starting_at
record_arrival_lem_example =
    record_arrival_lem (starting_at 0) 3 (starting_at-IsWindow 0 (omega arith)) (omega arith)

abbrev events : List Event
events = arrival 1 ∷ heartbeat ∷ arrival 0 ∷ []

acknowledged-Arrived_example :
    let p = (run fixed (new fixed 0) events).payload in
    ((t : ℕ) → is_received p t ≡ true → (t < 0) ⊎ Arrived t events)
    × (is_received p p.base_seq ≡ false)
    × ((t : ℕ) → t < p.base_seq → is_received p t ≡ true)
acknowledged-Arrived_example = acknowledged-Arrived fixed 0 events (omega arith) (omega arith)

events-run : (run fixed (new fixed 0) events).payload.base_seq ≡ 2
unfolding run step new starting_at on_packet_received record_arrival first_missing mark_received
    advance_base is_received has_bit shift_window trim_count tick
events-run = refl
