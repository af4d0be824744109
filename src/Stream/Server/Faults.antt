-- ===== src/Stream/Server/Faults.antt =====
-- Runs that do something undefined, as that of tb_stream_server of src/tb_stream.c does, after a part of
-- them that is defined.
use fastuserprotocol.Common.{◌≡◌, refl}
use fastuserprotocol.Os.{
  Run, ok, exited, halted, fault, out_of_fuel, Ends, bind-exited, bind-fault, ◌>>=◌,
}

-- The first run, and a second one that goes on from it into something undefined: if the first returns,
-- with `P`, the second is a fault; if the thread ends in the first, with `Q`, it does in the second.
abbrev pub FaultsAfter :
    {S A B : Type 0} → (A → S → Type 0) → (S → Type 0) → Run S A → Run S B → Type 0
FaultsAfter P Q (ok a s) r = P a s × (r ≡ fault)
FaultsAfter P Q (exited s) r = Q s × (r ≡ exited s)
FaultsAfter P Q _ r = ⊥

-- Two runs that begin in the same way.
pub FaultsAfter-bind :
    {S A B C : Type 0} (P : A → S → Type 0) (R : B → S → Type 0) (Q : S → Type 0) (m : S → Run S A)
    (f : A → S → Run S B) (g : A → S → Run S C) (s : S)
    → Ends P Q (m s)
    → ((a : A) (t : S) → P a t → FaultsAfter R Q (f a t) (g a t))
    → FaultsAfter R Q ((m >>= f) s) ((m >>= g) s)
FaultsAfter-bind {S} {A} P R Q m f g s h next = go (m s) h
  where
    go :
        (r : Run S A)
        → Ends P Q r
        → FaultsAfter R Q (◌>>=◌ (λ (_ : S). r) f s) (◌>>=◌ (λ (_ : S). r) g s)
    go (ok a t) p = next a t p
    go (exited t) q = (q, refl)
    go (halted t) q = absurd q
    go fault q = absurd q
    go out_of_fuel q = absurd q

-- What would come after the fault does not matter.
pub FaultsAfter-more :
    {S A B C : Type 0} (P : A → S → Type 0) (Q : S → Type 0) (r : Run S A) (m : S → Run S B)
    (k : B → S → Run S C) (s : S)
    → FaultsAfter P Q r (m s)
    → FaultsAfter P Q r ((m >>= k) s)
FaultsAfter-more P Q (ok a t) m k s (p, e) = (p, bind-fault m k s e)
FaultsAfter-more P Q (exited t) m k s (q, e) = (q, bind-exited m k s t e)
FaultsAfter-more P Q (halted t) m k s h = absurd h
FaultsAfter-more P Q fault m k s h = absurd h
FaultsAfter-more P Q out_of_fuel m k s h = absurd h
