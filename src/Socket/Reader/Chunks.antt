-- ===== src/Socket/Reader/Chunks.antt =====
-- OnData and RunReadLoop over the chunks of a stream: the fuel suffices, and it does not matter
-- where the network cuts the bytes.
use mathlib.Core.List.{flatten}
use paintty_server_go.Prelude.{
  ℕ, zero, suc, ◌≤◌, ◌<◌, ◌≡◌, ◌≢◌, refl, sym, ap, ◌∙◌, false, List, [], ◌∷◌, ◌++◌, Bytes, arith,
  ◌==◌, length, length-append, append-nil, append_assoc,
}
use paintty_server_go.Common.{Zlib}
use paintty_server_go.Socket.Reader.{
  Reader, new_reader, Package, Round, waits, emits, fails, panics, Status, waiting, failed,
  panicked, stuck, Run, emit, push, round, follow, rounds, resume, on_data, run_read_loop,
}
use paintty_server_go.Socket.Reader.Rounds.{Extends, round-push, Shrinks, round-Shrinks}

-- What the rest of the program sees of a run.
abbrev pub report : Run → List Package × Status
report x = (x.out, x.status)

resume-emit :
    (p : Package) (x : Run) (next : Reader → Run) → resume (emit p x) next ≡ emit p (resume x next)
resume-emit p x next = ground arith

follow-ext :
    (next next' : Reader → Run) (n : ℕ) (x : Round)
    → Shrinks n x
    → ((r : Reader) → length r.buffer < n → next r ≡ next' r)
    → follow next x ≡ follow next' x
follow-ext next next' n (waits r) h same = refl
follow-ext next next' n (emits p r) h same = ap (emit p) (same r h)
follow-ext next next' n (fails e r) h same = refl
follow-ext next next' n (panics r) h same = refl

module _ (z : Zlib) where
  -- Any two amounts of fuel above the length of the buffer give the same run.
  pub rounds-fuel :
      (f g : ℕ) (r : Reader)
      → length r.buffer < f
      → length r.buffer < g
      → rounds z f r ≡ rounds z g r
  unfolding rounds
  rounds-fuel zero g r hf hg = absurd (omega arith)
  rounds-fuel (suc f) zero r hf hg = absurd (omega arith)
  rounds-fuel (suc f) (suc g) r hf hg =
      follow-ext (rounds z f) (rounds z g) (length r.buffer) (round z r) (round-Shrinks z r)
        (λ r' h. rounds-fuel f g r' (omega arith) (omega arith))

  module _ (more : Bytes) where
    abbrev next_call : Reader → Run
    next_call r = on_data z r more

    follow-push :
        (next next' : Reader → Run) (n : ℕ) (x y : Round)
        → Extends z more x y
        → Shrinks n x
        → ((r : Reader)
            → length r.buffer ≤ n
            → follow next' (round z (push r more)) ≡ on_data z r more)
        → ((r : Reader)
            → length r.buffer < n
            → report (next' (push r more)) ≡ report (resume (next r) next_call))
        → report (follow next' y) ≡ report (resume (follow next x) next_call)
    follow-push next next' n (waits r) y e h last later = rw e (ap report (last r h))
    follow-push next next' n (emits p r) y e h last later =
        rw (e, resume-emit) (ap (λ (x : List Package × Status). (p ∷ x.0, x.1)) (later r h))
    follow-push next next' n (fails d r) y e h last later = rw e
    follow-push next next' n (panics r) y e h last later = rw e

    rounds-push :
        (f g : ℕ) (r : Reader)
        → length r.buffer < f
        → length (push r more).buffer < g
        → report (rounds z g (push r more)) ≡ report (resume (rounds z f r) next_call)
    unfolding rounds
    rounds-push zero g r hf hg = absurd (omega arith)
    rounds-push (suc f) zero r hf hg = absurd (omega arith)
    rounds-push (suc f) (suc g) r hf hg =
        follow-push (rounds z f) (rounds z g) (length r.buffer) (round z r) (round z (push r more))
          (round-push z more r) (round-Shrinks z r)
          (λ r' h.
            rounds-fuel (suc g) (suc (length (push r' more).buffer)) (push r' more)
              (omega (arith, length-append r.buffer more, length-append r'.buffer more))
              (omega arith)
            ∙ sym (on_data_lem r'))
          (λ r' h.
            rounds-push f g r' (omega arith)
              (omega (arith, length-append r.buffer more, length-append r'.buffer more)))
      where
        on_data_lem :
            (r : Reader)
            → on_data z r more ≡ rounds z (suc (length (push r more).buffer)) (push r more)
        on_data_lem r = unfold on_data in refl

    on_data-append :
        (r : Reader) (chunk : Bytes)
        → report (on_data z r (chunk ++ more)) ≡ report (resume (on_data z r chunk) next_call)
    unfolding on_data
    on_data-append r chunk =
        rw (← append_assoc r.buffer chunk more)
          (rounds-push _ _ (push r chunk) (omega arith) (omega arith))

  -- A reader between two calls of OnData: its buffer holds no whole package.
  abbrev pub IsIdle : Reader → Type 0
  IsIdle r = round z r ≡ waits r

  push-nil : (r : Reader) → push r [] ≡ r
  push-nil r = ap (λ (b : Bytes). record r { buffer = b }) (append-nil r.buffer)

  round-IsIdle : (r r' : Reader) → round z r ≡ waits r' → IsIdle r'
  round-IsIdle r r' e =
      let again : Extends z [] (waits r') (round z (push r [])) = rw e at (round-push z [] r) in
      ap (round z) (sym (push-nil r')) ∙ sym again ∙ ap (round z) (push-nil r) ∙ e

  rounds-IsIdle :
      (f : ℕ) (r : Reader) → (rounds z f r).status ≡ waiting → IsIdle (rounds z f r).reader
  unfolding rounds
  rounds-IsIdle zero r h = cc
  rounds-IsIdle (suc f) r h = go (round z r) refl h (rounds-IsIdle f)
    where
      go :
          (x : Round)
          → round z r ≡ x
          → (follow (rounds z f) x).status ≡ waiting
          → ((s : Reader) → (rounds z f s).status ≡ waiting → IsIdle (rounds z f s).reader)
          → IsIdle (follow (rounds z f) x).reader
      go (waits r') e h ih = round-IsIdle r r' e
      go (emits p r') e h ih = ih r' h
      go (fails d r') e h ih = cc
      go (panics r') e h ih = cc

  rounds-ne-stuck : (f : ℕ) (r : Reader) → length r.buffer < f → (rounds z f r).status ≢ stuck
  unfolding rounds
  rounds-ne-stuck zero r h = absurd (omega arith)
  rounds-ne-stuck (suc f) r h =
      go (round z r) (round-Shrinks z r) (λ r' h'. rounds-ne-stuck f r' (omega arith))
    where
      go :
          (x : Round)
          → Shrinks (length r.buffer) x
          → ((s : Reader) → length s.buffer < length r.buffer → (rounds z f s).status ≢ stuck)
          → (follow (rounds z f) x).status ≢ stuck
      go (waits r') e ih = λ q. cc
      go (emits p r') e ih = ih r' e
      go (fails d r') e ih = λ q. cc
      go (panics r') e ih = λ q. cc

  -- OnData ends by its own tests on every input: the fuel of its loop never runs out.
  pub on_data-ne-stuck : (r : Reader) (chunk : Bytes) → (on_data z r chunk).status ≢ stuck
  unfolding on_data
  on_data-ne-stuck r chunk = rounds-ne-stuck _ (push r chunk) (omega arith)

  on_data-IsIdle :
      (r : Reader) (chunk : Bytes)
      → (on_data z r chunk).status ≡ waiting
      → IsIdle (on_data z r chunk).reader
  unfolding on_data
  on_data-IsIdle r chunk h = rounds-IsIdle _ (push r chunk) h

  on_data-nil :
      (r : Reader) → IsIdle r → on_data z r [] ≡ record { reader = r; out = []; status = waiting }
  unfolding on_data rounds
  on_data-nil r idle = rw (push-nil r, idle)

  resume-ext :
      (x : Run) (next next' : Reader → Run)
      → (x.status ≡ waiting → report (next x.reader) ≡ report (next' x.reader))
      → report (resume x next) ≡ report (resume x next')
  resume-ext x next next' same = go x.status refl
    where
      go : (s : Status) → x.status ≡ s → report (resume x next) ≡ report (resume x next')
      go waiting e = rw e (ap (λ (y : List Package × Status). (x.out ++ y.0, y.1)) (same e))
      go (failed d) e = rw e
      go panicked e = rw e
      go stuck e = rw e

  run_read_loop_idle :
      (r : Reader) (chunks : List Bytes)
      → IsIdle r
      → report (run_read_loop z r chunks) ≡ report (on_data z r (flatten chunks))
  unfolding run_read_loop flatten
  run_read_loop_idle r [] idle = ap report (sym (on_data-nil r idle))
  run_read_loop_idle r ([] ∷ chunks) idle = run_read_loop_idle r chunks idle
  run_read_loop_idle r ((b ∷ bs) ∷ chunks) idle =
      let busy : (length (b ∷ bs) == 0) ≡ false = ground arith in
      rw busy (
        resume-ext (on_data z r (b ∷ bs)) (λ r'. run_read_loop z r' chunks)
          (λ r'. on_data z r' (flatten chunks))
          (λ h.
            run_read_loop_idle (on_data z r (b ∷ bs)).reader chunks (on_data-IsIdle r (b ∷ bs) h))
        ∙ sym (on_data-append (flatten chunks) r (b ∷ bs)))

  -- However the network cuts a stream into reads, the loop of a new connection hands on the same
  -- packages in the same order and ends in the same way as one call of OnData on the whole stream.
  pub run_read_loop-flatten :
      (chunks : List Bytes)
      → report (run_read_loop z new_reader chunks) ≡ report (on_data z new_reader (flatten chunks))
  unfolding round
  run_read_loop-flatten chunks = run_read_loop_idle new_reader chunks refl
