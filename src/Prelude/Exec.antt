-- ===== src/Prelude/Exec.antt =====
-- Python code that mutates state and may raise. An exception is its text; what was written before a
-- raise stays written, so the state comes back beside the error too.
use mathlib.Core.Bool.{Bool}
use porpulsion.Prelude.Tests.{if◌then◌else◌}
use Prim.Native.String.{String}

pub data Result (A : Type 0) : Type 0 where
  ok : A → Result A
  err : String → Result A

abbrev pub Exec : Type 0 → Type 0 → Type 0
Exec S A = S → Result A × S

abbrev pub pure : {S A : Type 0} → A → Exec S A
pure a s = (ok a, s)

abbrev pub raise : {S A : Type 0} → String → Exec S A
raise e s = (err e, s)

abbrev pub gets : {S A : Type 0} → (S → A) → Exec S A
gets f s = (ok (f s), s)

abbrev pub modify : {S : Type 0} → (S → S) → Exec S Unit
modify f s = (ok tt, f s)

abbrev pub after : {S A B : Type 0} → (A → Exec S B) → Result A × S → Result B × S
after f (ok a, s) = f a s
after f (err e, s) = (err e, s)

infixl 5 ◌>>=◌ ◌>>◌
abbrev pub ◌>>=◌ : {S A B : Type 0} → Exec S A → (A → Exec S B) → Exec S B
◌>>=◌ m f s = after f (m s)

abbrev pub ◌>>◌ : {S A B : Type 0} → Exec S A → Exec S B → Exec S B
m >> n = m >>= λ _. n

abbrev pub rescue_with : {S A : Type 0} → (String → Exec S A) → Result A × S → Result A × S
rescue_with h (ok a, s) = (ok a, s)
rescue_with h (err e, s) = h e s

-- `try: m except Exception as e: h(e)`
abbrev pub rescue : {S A : Type 0} → Exec S A → (String → Exec S A) → Exec S A
rescue m h s = rescue_with h (m s)

-- `try: m except Exception: pass`
abbrev pub suppress : {S A : Type 0} → Exec S A → Exec S Unit
suppress m s = (ok tt, (m s).1)

abbrev pub raise_if : {S : Type 0} → Bool → String → Exec S Unit
raise_if b e s = (if b then err e else ok tt, s)
