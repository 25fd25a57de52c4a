-- ===== src/Emu/Args/Runs.antt =====
-- The loop of process_args of spdm_emu/spdm_emu_common/spdm_emu.c over a whole command line.
use Prim.Native.String.{String}
use spdm_emu.Prelude.{
  ℕ, zero, suc, ◌≡◌, ◌≢◌, ◌≤◌, ◌<◌, refl, arith, Bool, ◌||◌, Bool-cases, inl, inr, length,
  length-append, List, [], ◌∷◌, ◌++◌, Option, none, some,
}
use spdm_emu.Emu.Args.Names.{streq}
use spdm_emu.Emu.Args.Globals.{Settings, Host, Verdict, accepts, refuses, asserts}
use spdm_emu.Emu.Args.Process.{
  Action, argument, alone, Turn, exits, aborts, continues, Ending, ran_out, exited, aborted,
  finished, options, find_option, after, act, proceed, args_loop, open_capture, process_args,
}

after-continues :
    (rest rest' : List String) (v : Verdict) (s' : Settings)
    → after rest v ≡ continues rest' s'
    → rest' ≡ rest
unfolding after
after-continues rest rest' (accepts s) s' e = cc
after-continues rest rest' refuses s' e = cc
after-continues rest rest' asserts s' e = cc

-- A turn leaves no more arguments than stand behind the option's name.
act-shortens :
    (o : Option Action) (rest rest' : List String) (s s' : Settings)
    → act o rest s ≡ continues rest' s'
    → length rest' ≤ length rest
unfolding act
act-shortens none rest rest' s s' e = cc
act-shortens (some (alone set)) rest rest' s s' e = ground arith
act-shortens (some (argument branch)) [] rest' s s' e = cc
act-shortens (some (argument branch)) (value ∷ rest) rest' s s' e =
    rw (after-continues rest rest' (branch value s) s' e) (omega arith)

after-append :
    (rest rest' ys : List String) (v : Verdict) (s' : Settings)
    → after rest v ≡ continues rest' s'
    → after (rest ++ ys) v ≡ continues (rest' ++ ys) s'
unfolding after
after-append rest rest' ys (accepts s) s' e = cc
after-append rest rest' ys refuses s' e = cc
after-append rest rest' ys asserts s' e = cc

-- Further arguments behind a turn's are left to the turns that follow it.
act-append :
    (o : Option Action) (rest rest' ys : List String) (s s' : Settings)
    → act o rest s ≡ continues rest' s'
    → act o (rest ++ ys) s ≡ continues (rest' ++ ys) s'
unfolding act
act-append none rest rest' ys s s' e = cc
act-append (some (alone set)) rest rest' ys s s' e = cc
act-append (some (argument branch)) [] rest' ys s s' e = cc
act-append (some (argument branch)) (value ∷ rest) rest' ys s s' e =
    after-append rest rest' ys (branch value s) s' e

module _ (table : List (String × Action)) where
  -- Enough fuel is as good as any other.
  loop_fuel :
      (f g : ℕ) (args : List String) (s : Settings)
      → length args < f
      → length args < g
      → args_loop table f args s ≡ args_loop table g args s
  unfolding args_loop
  loop_fuel zero g args s h h' = absurd (omega arith)
  loop_fuel (suc f) zero args s h h' = absurd (omega arith)
  loop_fuel (suc f) (suc g) [] s h h' = refl
  loop_fuel (suc f) (suc g) (name ∷ rest) s h h' =
      go (act (find_option table name) rest s) refl
        λ rest' s' few. loop_fuel f g rest' s' (omega arith) (omega arith)
    where
      go :
          (turn : Turn)
          → act (find_option table name) rest s ≡ turn
          → ((rest' : List String) (s' : Settings)
              → length rest' ≤ length rest
              → args_loop table f rest' s' ≡ args_loop table g rest' s')
          → proceed (args_loop table f) turn ≡ proceed (args_loop table g) turn
      go exits e next = refl
      go aborts e next = refl
      go (continues rest' s') e next =
          next rest' s' (act-shortens (find_option table name) rest rest' s s' e)

  loop-Ends :
      (fuel : ℕ) (args : List String) (s : Settings)
      → length args < fuel
      → args_loop table fuel args s ≢ ran_out
  unfolding args_loop
  loop-Ends zero args s h = absurd (omega arith)
  loop-Ends (suc fuel) [] s h = λ e. cc
  loop-Ends (suc fuel) (name ∷ rest) s h =
      go (act (find_option table name) rest s) refl
        λ rest' s' few. loop-Ends fuel rest' s' (omega arith)
    where
      go :
          (turn : Turn)
          → act (find_option table name) rest s ≡ turn
          → ((rest' : List String) (s' : Settings)
              → length rest' ≤ length rest
              → args_loop table fuel rest' s' ≢ ran_out)
          → proceed (args_loop table fuel) turn ≢ ran_out
      go exits e next = λ e'. cc
      go aborts e next = λ e'. cc
      go (continues rest' s') e next =
          next rest' s' (act-shortens (find_option table name) rest rest' s s' e)

  loop_append :
      (f g g' : ℕ) (xs ys : List String) (s s' : Settings)
      → args_loop table f xs s ≡ finished s'
      → length (xs ++ ys) < g
      → length ys < g'
      → args_loop table g (xs ++ ys) s ≡ args_loop table g' ys s'
  unfolding args_loop
  loop_append zero g g' xs ys s s' e h h' = cc
  loop_append (suc f) g g' [] ys s s' e h h' =
      let same : s ≡ s' = cc in rw same (loop_fuel g g' ys s' h h')
  loop_append (suc f) zero g' (name ∷ rest) ys s s' e h h' = absurd (omega arith)
  loop_append (suc f) (suc g) g' (name ∷ rest) ys s s' e h h' =
      go (act (find_option table name) rest s) refl e λ rest' s1 e' few.
        loop_append f g g' rest' ys s1 s' e'
          (omega (arith, length-append rest ys, length-append rest' ys)) h'
    where
      go :
          (turn : Turn)
          → act (find_option table name) rest s ≡ turn
          → proceed (args_loop table f) turn ≡ finished s'
          → ((rest' : List String) (s1 : Settings)
              → args_loop table f rest' s1 ≡ finished s'
              → length rest' ≤ length rest
              → args_loop table g (rest' ++ ys) s1 ≡ args_loop table g' ys s')
          → proceed (args_loop table g) (act (find_option table name) (rest ++ ys) s)
            ≡ args_loop table g' ys s'
      go exits t e next = cc
      go aborts t e next = cc
      go (continues rest' s1) t e next =
          rw (act-append (find_option table name) rest rest' ys s s1 t)
            (next rest' s1 e (act-shortens (find_option table name) rest rest' s s1 t))

  -- A command line can be cut between its options: where the loop finishes on the first part, the
  -- whole runs as the second part does from the settings that the first one leaves, whatever the
  -- second part is. The loop has a turn for each argument and one more.
  pub args_loop_append :
      (xs ys : List String) (s s' : Settings)
      → args_loop table (suc (length xs)) xs s ≡ finished s'
      → args_loop table (suc (length (xs ++ ys))) (xs ++ ys) s
        ≡ args_loop table (suc (length ys)) ys s'
  args_loop_append xs ys s s' e =
      loop_append (suc (length xs)) (suc (length (xs ++ ys))) (suc (length ys)) xs ys s s' e
        (omega arith) (omega arith)

capture-Ends :
    (open_pcap_packet_file : String → Settings → Bool) (ending : Ending)
    → ending ≢ ran_out
    → open_capture open_pcap_packet_file ending ≢ ran_out
unfolding open_capture
capture-Ends open_pcap_packet_file ran_out h = λ e. h refl
capture-Ends open_pcap_packet_file exited h = λ e. cc
capture-Ends open_pcap_packet_file aborted h = λ e. cc
capture-Ends open_pcap_packet_file (finished s) h = λ e. ground arith

-- The loop over the arguments ends for every command line, program name and host: it exits after
-- the usage, fails an assertion or finishes with settings, and never runs out of its turns.
pub process_args-Ends :
    (h : Host) (open_pcap_packet_file : String → Settings → Bool) (program_name : String)
    (args : List String) (s : Settings)
    → process_args h open_pcap_packet_file program_name args s ≢ ran_out
unfolding process_args
process_args-Ends h open_pcap_packet_file program_name [] s = λ e. cc
process_args-Ends h open_pcap_packet_file program_name (name ∷ rest) s =
    elim (Bool-cases (streq name "-h" || streq name "--help")) [
      | inl help ↦ rw help (λ e. cc)
      | inr none_asked ↦ rw none_asked (
          capture-Ends open_pcap_packet_file _ (
            loop-Ends (options h program_name) (suc (length (name ∷ rest))) (name ∷ rest)
              (record s { pcap_file_name = none }) (omega arith)))
    ]
