-- ===== src/Os.antt =====
-- The system calls and the UDT library as the sources of src/ use them: parameters of the model.
-- A value of `World` is what lies outside the program; each call returns its answer and the world
-- after it. Also the outcomes of a thread, and the monad of code that may end its thread.
pub mod Contract
pub mod Sample
use Prim.Native.String.{String}
use fastuserprotocol.Common.{
  ℕ, ◌≡◌, refl, Bool, true, false, Option, none, some, List, if◌then◌else◌,
}
use fastuserprotocol.Common.Int.{ℤ}
use fastuserprotocol.Protocol.{Callee, SockType}

-- A reading of CLOCK_MONOTONIC.
pub record Timespec : Type 0 where
  pub tv_sec : ℕ
  pub tv_nsec : ℕ

-- What getaddrinfo finds; `ai_addr` stands for the address.
pub record AddrInfo : Type 0 where
  pub ai_family : ℤ
  pub ai_socktype : SockType
  pub ai_protocol : ℤ
  pub ai_addr : ℕ

-- The options that setsockopt and udt_setsockopt are called with.
pub data OptName : Type 0 where
  so_rcvbuf so_sndbuf so_reuseaddr : OptName
  udt_rcvbuf udt_sndbuf udp_rcvbuf udp_sndbuf udt_rcvsyn : OptName

pub record Os (World : Type 0) : Type 0 where
  pub socket : Callee → AddrInfo → World → ℤ × World
  pub bind : Callee → ℤ → AddrInfo → World → ℤ × World
  pub connect : Callee → ℤ → AddrInfo → World → ℤ × World
  pub listen : Callee → ℤ → ℕ → World → ℤ × World
  pub accept : Callee → ℤ → World → ℤ × World
  -- The bytes handed over, and the answer: how many were taken, or -1.
  pub send : Callee → ℤ → List ℕ → World → ℤ × World
  -- The size of the buffer, and the answer with the bytes written to it.
  pub recv : Callee → ℤ → ℕ → World → ℤ × List ℕ × World
  pub close : Callee → ℤ → World → World
  pub shutdown : ℤ → World → World
  pub setsockopt : ℤ → OptName → ℤ → World → ℤ × World
  -- What the option holds; `none`: the call fails and writes nothing.
  pub getsockopt : ℤ → OptName → World → Option ℤ × World
  -- The option TCP_INFO, of which only `tcpi_lost` is read here.
  pub tcp_info : ℤ → World → Option ℕ × World
  -- `pktSndLoss` and `pktRcvLoss` of the report of udt_perfmon.
  pub udt_perfmon : ℤ → World → Option (ℤ × ℤ) × World
  pub getaddrinfo : String → String → SockType → World → Option AddrInfo × World
  pub errno_again : World → Bool
  pub clock_gettime : World → Timespec × World
  -- Has SIGINT come in since the last reading?
  pub interrupted : World → Bool × World

-- How a thread may stand: it returned, ended itself by pthread_exit, ended the process by exit,
-- did something undefined, or used up the rounds that the model gives its loop.
pub data Run (S A : Type 0) : Type 0 where
  ok : A → S → Run S A
  exited : S → Run S A
  halted : S → Run S A
  fault : Run S A
  out_of_fuel : Run S A

module _ {S : Type 0} where
  abbrev pub pure : {A : Type 0} → A → S → Run S A
  pure a s = ok a s

  infixl 5 ◌>>=◌ ◌>>◌
  abbrev pub ◌>>=◌ : {A B : Type 0} → (S → Run S A) → (A → S → Run S B) → S → Run S B
  ◌>>=◌ m f s = elim (m s) [
    | ok a s' ↦ f a s'
    | exited s' ↦ exited s'
    | halted s' ↦ halted s'
    | fault ↦ fault
    | out_of_fuel ↦ out_of_fuel
  ]

  abbrev pub ◌>>◌ : {B : Type 0} → (S → Run S (Unit {0})) → (S → Run S B) → S → Run S B
  ◌>>◌ m k = m >>= λ _. k

  abbrev pub get : S → Run S S
  get s = ok s s

  abbrev pub modify : (S → S) → S → Run S (Unit {0})
  modify f s = ok tt (f s)

  abbrev pub when : Bool → (S → Run S (Unit {0})) → S → Run S (Unit {0})
  when b m = if b then m else pure tt

  -- A call through a null pointer, or a read through one, is a fault.
  abbrev pub deref : {A : Type 0} → Option A → S → Run S A
  deref none s = fault
  deref (some a) s = ok a s

pub bind-ok :
    {S A B : Type 0} (m : S → Run S A) (f : A → S → Run S B) (s : S) (a : A) (t : S)
    → m s ≡ ok a t
    → (m >>= f) s ≡ f a t
bind-ok m f s a t e = rw (e, ◌>>=◌) refl

pub bind-exited :
    {S A B : Type 0} (m : S → Run S A) (f : A → S → Run S B) (s t : S)
    → m s ≡ exited t
    → (m >>= f) s ≡ exited t
bind-exited m f s t e = rw (e, ◌>>=◌) refl

pub bind-fault :
    {S A B : Type 0} (m : S → Run S A) (f : A → S → Run S B) (s : S)
    → m s ≡ fault
    → (m >>= f) s ≡ fault
bind-fault m f s e = rw (e, ◌>>=◌) refl

-- Total correctness: the run returns with `P`, or its thread ends itself with `Q`; it is not stuck,
-- does nothing undefined and leaves the process alone.
abbrev pub Ends : {S A : Type 0} → (A → S → Type 0) → (S → Type 0) → Run S A → Type 0
Ends P Q (ok a s) = P a s
Ends P Q (exited s) = Q s
Ends P Q _ = ⊥

pub Ends-bind :
    {S A B : Type 0} (P : A → S → Type 0) (R : B → S → Type 0) (Q : S → Type 0) (m : S → Run S A)
    (f : A → S → Run S B) (s : S)
    → Ends P Q (m s)
    → ((a : A) (t : S) → P a t → Ends R Q (f a t))
    → Ends R Q ((m >>= f) s)
Ends-bind {S} {A} P R Q m f s h next = go (m s) h
  where
    go : (r : Run S A) → Ends P Q r → Ends R Q (◌>>=◌ (λ (_ : S). r) f s)
    go (ok a t) p = next a t p
    go (exited t) q = q
    go (halted t) q = absurd q
    go fault q = absurd q
    go out_of_fuel q = absurd q

pub Ends-mono :
    {S A : Type 0} (P R : A → S → Type 0) (Q : S → Type 0) (r : Run S A)
    → Ends P Q r
    → ((a : A) (s : S) → P a s → R a s)
    → Ends R Q r
Ends-mono P R Q (ok a s) p f = f a s p
Ends-mono P R Q (exited s) q f = q
Ends-mono P R Q (halted s) q f = q
Ends-mono P R Q fault q f = q
Ends-mono P R Q out_of_fuel q f = q

pub Ends-widen :
    {S A : Type 0} (P : A → S → Type 0) (Q R : S → Type 0) (r : Run S A)
    → Ends P Q r
    → ((s : S) → Q s → R s)
    → Ends P R r
Ends-widen P Q R (ok a s) p f = p
Ends-widen P Q R (exited s) q f = f s q
Ends-widen P Q R (halted s) q f = q
Ends-widen P Q R fault q f = q
Ends-widen P Q R out_of_fuel q f = q
