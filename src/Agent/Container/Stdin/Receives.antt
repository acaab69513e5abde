-- ===== src/Agent/Container/Stdin/Receives.antt =====
-- What a container reads from its standard input.
use slopvmrunner.Prelude.{
  ℕ, zero, suc, ◌-◌, ◌≤◌, ◌<◌, ◌≡◌, ◌∙◌, refl, sym, ap, arith, inl, inr, true, false, Option, none,
  some, List, [], ◌∷◌, ◌++◌, length, take, drop, leb, append-nil, append_assoc, length-append, ◌⊎◌,
  Bool-cases,
}
use slopvmrunner.Go.Scanner.{Bytes}
use slopvmrunner.Agent.Container.Stdin.{
  Pipe, StdinError, pipe_write, write_chunk, stdin_write, stdin_done, StdinCall, writes, closes,
  stdin_call, stdin_calls,
}

-- The chunks of the calls of Write up to the first Done.
abbrev pub sent : List StdinCall → Bytes
sent [] = []
sent (closes ∷ cs) = []
sent (writes none ∷ cs) = sent cs
sent (writes (some chunk) ∷ cs) = chunk ++ sent cs

-- The container's input is what it was and a first part of what is sent, and all of it where there
-- is room.
pub record IsPart (p : Pipe) (after chunks : Bytes) : Type 0 where
  pub part : Bytes
  pub rest : Bytes
  pub whole : after ≡ p.received ++ part
  pub parts : chunks ≡ part ++ rest
  pub complete : length chunks ≤ p.room → rest ≡ []

-- A pipe that takes nothing more.
abbrev IsShut : Pipe → Type 0
IsShut p = (p.writable ≡ false) ⊎ (p.room ≡ 0)

filled : Pipe → Bytes → Pipe
filled p chunk = record p { received = p.received ++ chunk; room = p.room - length chunk }

broken : Pipe → Bytes → Pipe
broken p chunk = record p { received = p.received ++ take p.room chunk; room = 0 }

-- How a write ends.
data Wrote (p : Pipe) (chunk : Bytes) (r : Pipe × Option StdinError) : Type 0 where
  refused : p.writable ≡ false → r.0 ≡ p → Wrote p chunk r
  fits : p.writable ≡ true → length chunk ≤ p.room → r.0 ≡ filled p chunk → Wrote p chunk r
  breaks : p.writable ≡ true → p.room < length chunk → r.0 ≡ broken p chunk → Wrote p chunk r

wrote : (p : Pipe) (chunk : Bytes) → Wrote p chunk (pipe_write p chunk)
unfolding pipe_write filled broken
wrote p chunk = elim (Bool-cases p.writable) [
  | inr e ↦ refused e (rw e refl)
  | inl e ↦ elim (Bool-cases (leb (length chunk) p.room)) [
    | inl k ↦ fits e (ground (arith, k)) (rw (e, k) refl)
    | inr k ↦ breaks e (ground (arith, k)) (rw (e, k) refl)
  ]
]

-- A pipe that is shut stays so and receives nothing.
IsUnchanged : Pipe → Pipe → Type 0
IsUnchanged p q = (q.received ≡ p.received) × IsShut q

take_none : (n : ℕ) (xs : Bytes) → n ≡ 0 → take n xs ≡ []
take_none n xs e = rw e refl

shut_write :
    (p : Pipe) (chunk : Bytes) (r : Pipe × Option StdinError)
    → IsShut p
    → Wrote p chunk r
    → IsUnchanged p r.0
unfolding IsUnchanged filled broken
shut_write p chunk r h (refused e q) = rw q (refl, h)
shut_write p chunk r (inl e) (fits w k q) = cc (e, w)
shut_write p [] r (inr e) (fits w k q) = rw q (append-nil p.received, inr (omega (arith, e)))
shut_write p (b ∷ chunk) r (inr e) (fits w k q) = absurd (omega (arith, k, e))
shut_write p chunk r (inl e) (breaks w k q) = cc (e, w)
shut_write p chunk r (inr e) (breaks w k q) =
    rw q (rw (take_none p.room chunk e) (append-nil p.received), inr refl)

shut_call : (p : Pipe) (c : StdinCall) → IsShut p → IsUnchanged p (stdin_call p c).0
unfolding stdin_call stdin_write stdin_done write_chunk IsUnchanged
shut_call p closes h = (refl, inl refl)
shut_call p (writes none) h = (refl, h)
shut_call p (writes (some [])) h = (refl, h)
shut_call p (writes (some (b ∷ chunk))) h =
    shut_write p (b ∷ chunk) (pipe_write p (b ∷ chunk)) h (wrote p (b ∷ chunk))

shut_calls :
    (p : Pipe) (cs : List StdinCall) → IsShut p → (stdin_calls p cs).0.received ≡ p.received
unfolding stdin_calls IsUnchanged
shut_calls p [] h = refl
shut_calls p (c ∷ cs) h = let u = shut_call p c h in shut_calls (stdin_call p c).0 cs u.1 ∙ u.0

take-drop : (n : ℕ) (xs : Bytes) → take n xs ++ drop n xs ≡ xs
take-drop zero xs = refl
take-drop (suc n) [] = refl
take-drop (suc n) (x ∷ xs) = ap (λ l. x ∷ l) (take-drop n xs)

after_write :
    (p : Pipe) (chunk : Bytes) (cs : List StdinCall) (r : Pipe × Option StdinError)
    → p.writable ≡ true
    → Wrote p chunk r
    → ((q : Pipe) → q.writable ≡ true → IsPart q (stdin_calls q cs).0.received (sent cs))
    → IsPart p (stdin_calls r.0 cs).0.received (chunk ++ sent cs)
unfolding filled broken
after_write p chunk cs r w (refused e q) later = cc (e, w)
after_write p chunk cs r w (fits _ k q) later =
    let more = later (filled p chunk) w in
    rw q (record {
      part = chunk ++ more.part;
      rest = more.rest;
      whole = more.whole ∙ append_assoc p.received chunk more.part;
      parts = ap (λ l. chunk ++ l) more.parts ∙ sym (append_assoc chunk more.part more.rest);
      complete = λ fit. more.complete (omega (arith, fit, k, length-append chunk (sent cs)));
    })
after_write p chunk cs r w (breaks _ k q) later = rw q (record {
  part = take p.room chunk;
  rest = drop p.room chunk ++ sent cs;
  whole = shut_calls (broken p chunk) cs (inr refl);
  parts =
      ap (λ l. l ++ sent cs) (sym (take-drop p.room chunk))
      ∙ append_assoc (take p.room chunk) (drop p.room chunk) (sent cs);
  complete = λ fit. absurd (omega (arith, fit, k, length-append chunk (sent cs)));
})

-- Whatever calls are made of the stream, the container receives a first part of the chunks that are
-- written up to the first Done, in their order, and nothing after it; it receives all of them if the
-- pipe has room for them. Chunks that cannot be decoded are passed over.
pub stdin_calls-IsPart :
    (p : Pipe) (cs : List StdinCall)
    → p.writable ≡ true
    → IsPart p (stdin_calls p cs).0.received (sent cs)
unfolding stdin_calls stdin_call stdin_write stdin_done write_chunk
stdin_calls-IsPart p [] w = record {
  part = [];
  rest = [];
  whole = sym (append-nil p.received);
  parts = refl;
  complete = λ _. refl;
}
stdin_calls-IsPart p (closes ∷ cs) w = record {
  part = [];
  rest = [];
  whole = shut_calls (record p { writable = false }) cs (inl refl) ∙ sym (append-nil p.received);
  parts = refl;
  complete = λ _. refl;
}
stdin_calls-IsPart p (writes none ∷ cs) w = stdin_calls-IsPart p cs w
stdin_calls-IsPart p (writes (some []) ∷ cs) w = stdin_calls-IsPart p cs w
stdin_calls-IsPart p (writes (some (b ∷ chunk)) ∷ cs) w =
    after_write p (b ∷ chunk) cs (pipe_write p (b ∷ chunk)) w (wrote p (b ∷ chunk))
      (λ q h. stdin_calls-IsPart q cs h)
