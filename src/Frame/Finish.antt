-- ===== src/Frame/Finish.antt =====
-- testframe.cpp: a run with a repeat count and without flow control can always be finished.
use test_frame.Prelude.{
  ℕ, zero, suc, ◌+◌, ◌*◌, ◌≤◌, ◌<◌, ◌≡◌, ◌≢◌, ◌⊎◌, inl, inr, refl, true, false, Bool-cases, List,
  ◌∷◌, arith, is_pos, total, total-ge, update, ◌==◌, if◌then◌else◌,
}
use test_frame.Frame.{TestFrame, all_sent}
use test_frame.Frame.Worker.{Shared, Pc, Label, early, Move, finished}
use test_frame.Frame.System.{System, Step, run, is_running, Reach, next, threads}
use test_frame.Frame.Start.{Way, stay, go, Reach-unmetered}
use test_frame.Frame.Threads.{Reach-Settings}
use test_frame.Frame.Lock.{is_closed, NoEarly}
use test_frame.Frame.Progress.{total-some}
use test_frame.Frame.Quota.{Limits, quota, turns-exact}
use test_frame.Frame.Work.{moves, moves-le}
use test_frame.Frame.Idle.{IsIdle, is_resting, IsReady, Reach-IsReady}
use test_frame.Frame.Ends.{Ends, sent-Ends}
use test_frame.Frame.Complete.{is_under_way, idle-exact}

abbrev busy : Pc → ℕ
busy p = if is_resting p then 0 else 1

resting-early :
    {m m' : Shared} {p p' : Pc} {l : Label} → Move m p l m' p' → is_resting p ≡ true → l ≡ early
resting-early Move.start_early rests = refl
resting-early Move.resume_early rests = refl
resting-early mv rests = absurd (cc)

Move-under_way :
    {m m' : Shared} {p p' : Pc} {l : Label}
    → Move m p l m' p'
    → is_under_way p ≡ true
    → is_under_way p' ≡ true
Move-under_way Move.init on = absurd (cc)
Move-under_way mv on = ground arith

later-NoEarly : (l : Label) (ls : List Label) → l ≢ early → NoEarly ls → NoEarly (l ∷ ls)
later-NoEarly early ls on_time ne = on_time refl
later-NoEarly Label.quiet ls on_time ne = ne
later-NoEarly Label.refilled ls on_time ne = ne
later-NoEarly Label.granted ls on_time ne = ne

-- All threads are at rest, or one can go on.
IsIdle-or_IsReady :
    {f : TestFrame} {ls : List Label} {s : System}
    → Reach f ls s
    → is_pos f.frequence_const ≡ false
    → is_closed s.control ≡ false
    → is_running s.control ≡ true
    → IsIdle (threads f) s ⊎ IsReady (threads f) s
IsIdle-or_IsReady {f} {s = s} r free shut on =
    elim (Bool-cases (total busy (threads f) s.pc == 0)) [
      | inl none_busy ↦ inl (λ i lt l m p mv.
          resting-early mv (ground (arith, none_busy, total-ge busy (threads f) s.pc i lt)))
      | inr some_busy ↦
          let (i, lt, w) = total-some busy (threads f) s.pc (ground arith) in
          let unheld = Reach-unmetered r (rw (Reach-Settings r).same_frequence free) in
          elim (Reach-IsReady i r shut on unheld lt) [
            | inl rests ↦ absurd (ground arith)
            | inr g ↦ inr g
          ]
    ]

abbrev after : {n : ℕ} {s : System} → IsReady n s → System
after {s = s} g = record s { mem = g.mem'; pc = update s.pc g.thread g.pc' }

moved-under_way :
    (pc : ℕ → Pc) (j i : ℕ) (q : Pc)
    → is_under_way (pc i) ≡ true
    → (is_under_way (pc j) ≡ true → is_under_way q ≡ true)
    → is_under_way (update pc j q i) ≡ true
moved-under_way pc j i q on moved = elim (Bool-cases (j == i)) [
  | inl same ↦ let e : i ≡ j = ground arith in rw same (moved (rw e at on))
  | inr other ↦ rw other on
]

-- Once all test cases are counted, the main thread finds that all is sent.
counted-all_sent :
    {f : TestFrame} (limit : ℕ) {ls : List Label} {s : System}
    → Limits f limit
    → Reach f ls s
    → s.statistic.total_count ≡ limit
    → all_sent s.frame ≡ true
counted-all_sent limit {s = s} c r counted =
    let set : is_pos s.repeat_count_const ≡ true = ground (arith, quota limit c r, c.some_turn) in
    ground (arith, turns-exact limit c r, counted)

-- A rest of the run, up to a state at rest.
record Finishes (f : TestFrame) (i : ℕ) (s0 : System) : Type 0 where
  later : List Label
  last : System
  way : Way (threads f) s0 later last
  on_time : NoEarly later
  same_control : last.control ≡ s0.control
  labels : List Label
  reach : Reach f labels last
  rests : IsIdle (threads f) last
  under_way : is_under_way (last.pc i) ≡ true

module _ {f : TestFrame} (limit : ℕ) (c : Limits f limit) (i : ℕ) (s0 : System)
    (free : is_pos f.frequence_const ≡ false) (shut : is_closed s0.control ≡ false)
    (on : is_running s0.control ≡ true) where
  rested :
      {later ls : List Label} {s : System}
      → Reach f ls s
      → Way (threads f) s0 later s
      → NoEarly later
      → s.control ≡ s0.control
      → is_under_way (s.pc i) ≡ true
      → IsIdle (threads f) s
      → Finishes f i s0
  rested {later} {ls} {s} r w ne same under_way rests = record {
    later = later;
    last = s;
    way = w;
    on_time = ne;
    same_control = same;
    labels = ls;
    reach = r;
    rests = rests;
    under_way = under_way;
  }

  finish :
      (k : ℕ) {later ls : List Label} {s : System} (r : Reach f ls s)
      → 10 * threads f + 4 * limit ≤ moves r + k
      → Way (threads f) s0 later s
      → NoEarly later
      → s.control ≡ s0.control
      → is_under_way (s.pc i) ≡ true
      → Finishes f i s0
  unfolding moves
  finish zero {s = s} r le w ne same under_way =
      elim (IsIdle-or_IsReady r free (rw same shut) (rw same on)) [
        | inl rests ↦ rested r w ne same under_way rests
        | inr g ↦
            let most = moves-le limit c free (next r (run g.thread g.below (rw same on) g.move)) in
            absurd (omega (arith, le, most))
      ]
  finish (suc k) {later} {s = s} r le w ne same under_way =
      elim (IsIdle-or_IsReady r free (rw same shut) (rw same on)) [
        | inl rests ↦ rested r w ne same under_way rests
        | inr g ↦
            let st : Step (threads f) s g.label (after g) =
              run g.thread g.below (rw same on) g.move in
            finish k (next r st) (omega (arith, le)) (go w st)
              (later-NoEarly g.label later g.on_time ne) same
              (moved-under_way s.pc g.thread i g.pc' under_way (Move-under_way g.move))
      ]

  -- A run with a repeat count can be brought to its end: with a positive repeat count, which like the
  -- number of threads is below 2 ^ 31, and without flow control, from every state that can be reached
  -- once the threads have been started, in which the process runs and some thread is past the start, the
  -- threads can go on, without a wait that returns by itself and without a step of the main thread, to a
  -- state in which that thread has left its loop and exactly the set number of test cases has been
  -- counted; and from there the program can come to `exit(0)` with exactly that number counted.
  pub Reach-Finishes :
      {ls : List Label}
      → Reach f ls s0
      → i < threads f
      → is_under_way (s0.pc i) ≡ true
      → (later : List Label) × (t : System) × Way (threads f) s0 later t
        × NoEarly later
        × (t.control ≡ s0.control)
        × (t.pc i ≡ finished)
        × (t.statistic.total_count ≡ limit)
        × Ends (threads f) t limit
  Reach-Finishes r lt under_way =
      let v = finish (10 * threads f + 4 * limit) r (omega arith) stay tt refl under_way in
      let still_on : is_running v.last.control ≡ true = rw v.same_control on in
      let (done, counted, none_left) =
        idle-exact limit i c free v.reach (rw v.same_control shut) still_on v.rests lt
          v.under_way in
      let unheld = Reach-unmetered v.reach (rw (Reach-Settings v.reach).same_frequence free) in
      let ends =
        sent-Ends {n = threads f} {s = v.last} v.last.control
          (counted-all_sent limit c v.reach counted) (rw v.same_control shut) still_on unheld
          refl in
      (v.later, v.last, v.way, v.on_time, v.same_control, done, counted, rw counted at ends)
