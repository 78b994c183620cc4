-- ===== src/KnownHosts/Families.antt =====
-- The families of algorithms in is_plausible_blob of ssh-transport/src/known_hosts.rs.
use rust_core.Base.{◌≡◌, ◌⊎◌, ◌↔◌, refl, inl, inr, Bool, true, false, ◌||◌, ◌++◌, Text, arith}
use rust_core.Base.{codes, starts_with, starts_with-append, append-starts_with}
use rust_core.KnownHosts.{has_family}

-- The name is that of a plain SSH key, of an ECDSA key, of a security key or of an X.509 certificate.
abbrev pub IsFamily : Text → Type 0
IsFamily alg =
    ((rest : Text) × (alg ≡ codes "ssh-" ++ rest))
    ⊎ ((rest : Text) × (alg ≡ codes "ecdsa-" ++ rest))
    ⊎ ((rest : Text) × (alg ≡ codes "sk-ssh-" ++ rest))
    ⊎ ((rest : Text) × (alg ≡ codes "x509v3-" ++ rest))

disjunction :
    {A B C D : Type 0} (a b c d : Bool)
    → ((a ≡ true) → A)
    → ((b ≡ true) → B)
    → ((c ≡ true) → C)
    → ((d ≡ true) → D)
    → (a || b || c || d) ≡ true
    → A ⊎ B ⊎ C ⊎ D
disjunction true b c d f g h k e = inl (f refl)
disjunction false true c d f g h k e = inr (inl (g refl))
disjunction false false true d f g h k e = inr (inr (inl (h refl)))
disjunction false false false true f g h k e = inr (inr (inr (k refl)))
disjunction false false false false f g h k e = cc

joined :
    (a b c d : Bool) → (a ≡ true) ⊎ (b ≡ true) ⊎ (c ≡ true) ⊎ (d ≡ true) → (a || b || c || d) ≡ true
joined a b c d (inl e) = ground arith
joined a b c d (inr (inl e)) = ground arith
joined a b c d (inr (inr (inl e))) = ground arith
joined a b c d (inr (inr (inr e))) = ground arith

opens : (alg p rest : Text) → alg ≡ p ++ rest → starts_with alg p ≡ true
opens alg p rest e = rw e (append-starts_with p rest)

IsFamily-has_family : (alg : Text) → IsFamily alg → has_family alg ≡ true
unfolding has_family
IsFamily-has_family alg f = joined _ _ _ _ (family f)
  where
    family :
        IsFamily alg
        → (starts_with alg (codes "ssh-") ≡ true)
          ⊎ (starts_with alg (codes "ecdsa-") ≡ true)
          ⊎ (starts_with alg (codes "sk-ssh-") ≡ true)
          ⊎ (starts_with alg (codes "x509v3-") ≡ true)
    family (inl (rest, e)) = inl (opens alg (codes "ssh-") rest e)
    family (inr (inl (rest, e))) = inr (inl (opens alg (codes "ecdsa-") rest e))
    family (inr (inr (inl (rest, e)))) = inr (inr (inl (opens alg (codes "sk-ssh-") rest e)))
    family (inr (inr (inr (rest, e)))) = inr (inr (inr (opens alg (codes "x509v3-") rest e)))

pub has_family_iff : (alg : Text) → (has_family alg ≡ true) ↔ IsFamily alg
unfolding has_family
has_family_iff alg = (
  disjunction _ _ _ _ (starts_with-append alg (codes "ssh-"))
      (starts_with-append alg (codes "ecdsa-")) (starts_with-append alg (codes "sk-ssh-"))
      (starts_with-append alg (codes "x509v3-")),
  IsFamily-has_family alg,
)
