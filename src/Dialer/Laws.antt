-- ===== src/Dialer/Laws.antt =====
-- pkg/dialer/dialer.go: which executer is copied to a host.
use sophons.Base.{
  ℕ, arith, ◌≡◌, ◌⊎◌, inl, inr, refl, sym, ap, true, false, Bool-cases, none, some, List, [], ◌∷◌,
  ◌++◌, ==_iff, not, ◌&&◌, ◌||◌,
}
use mathlib.Core.Bool.{true≢false}
use sophons.Base.Text.{codes, trim_space}
use sophons.Base.Action.{ok, bind-ok, err≢ok, ok-injective, ◌>>=◌}
use sophons.Dialer.{
  Connection, Names, Output, text_eq, is_text, run_command, bin_name_for, no_error, name_for_arch,
  of_arch, of_os, executer_bin_name,
}

text_eq_sound : (s t : List ℕ) → text_eq s t ≡ true → s ≡ t
unfolding text_eq
text_eq_sound [] [] h = refl
text_eq_sound [] (b ∷ t) h = cc
text_eq_sound (a ∷ s) [] h = cc
text_eq_sound (a ∷ s) (b ∷ t) h = ground (arith, ==_iff a b, text_eq_sound s t)

abbrev pub IsLinux : List ℕ → Type 0
IsLinux name = (name ≡ codes "executer-linux-x86_64") ⊎ (name ≡ codes "executer-linux-arm64")

abbrev pub IsDarwin : List ℕ → Type 0
IsDarwin name = (name ≡ codes "executer-darwin-x86_64") ⊎ (name ≡ codes "executer-darwin-arm64")

-- The names of the executers, and the empty one.
abbrev pub KnownName : List ℕ → Type 0
KnownName name = (name ≡ []) ⊎ IsLinux name ⊎ IsDarwin name

-- A name for an operating system, with either architecture.
bin_name_for-cases :
    (os arch name : List ℕ)
    → bin_name_for os arch ≡ ok name
    → (name ≡ codes "executer-" ++ os ++ codes "-x86_64")
      ⊎ (name ≡ codes "executer-" ++ os ++ codes "-arm64")
unfolding bin_name_for
bin_name_for-cases os arch name h =
    elim (Bool-cases (is_text arch "amd64" || is_text arch "x86_64")) [
      | inl intel ↦ inl (sym (ok-injective (rw intel at h)))
      | inr rest ↦ elim (Bool-cases (is_text arch "arm64" || is_text arch "aarch64")) [
        | inl arm ↦ inr (sym (ok-injective (rw (rest, arm) at h)))
        | inr unknown ↦ absurd (err≢ok (rw (rest, unknown) at h))
      ]
    ]

of_arch-KnownName :
    (os name : List ℕ) (a : Output)
    → (os ≡ codes "linux") ⊎ (os ≡ codes "darwin")
    → of_arch os a ≡ ok name
    → KnownName name
of_arch-KnownName os name (a, some e) system h = inl (sym (ok-injective h))
of_arch-KnownName os name (a, none) (inl linux) h =
    inr (inl (bin_name_for-cases (codes "linux") _ name (rw linux at h)))
of_arch-KnownName os name (a, none) (inr darwin) h =
    inr (inr (bin_name_for-cases (codes "darwin") _ name (rw darwin at h)))

is_supported :
    (os : List ℕ)
    → (not (is_text os "linux") && not (is_text os "darwin")) ≡ false
    → (os ≡ codes "linux") ⊎ (os ≡ codes "darwin")
is_supported os h = elim (Bool-cases (is_text os "linux")) [
  | inl e ↦ inl (text_eq_sound os (codes "linux") e)
  | inr e ↦ elim (Bool-cases (is_text os "darwin")) [
    | inl e' ↦ inr (text_eq_sound os (codes "darwin") e')
    | inr e' ↦ absurd (true≢false (rw (e, e') at h))
  ]
]

module _ {W : Type 0} (conn : Connection W) (names : Names) where
  name_for_arch-KnownName :
      (os name : List ℕ) (w w' : W) → name_for_arch conn names os w ≡ (ok name, w') → KnownName name
  unfolding name_for_arch ◌>>=◌
  name_for_arch-KnownName os name w w' h =
      elim (Bool-cases (not (is_text os "linux") && not (is_text os "darwin"))) [
        | inl other ↦ absurd (err≢ok (ap (λ p. p.0) (rw other at h)))
        | inr known ↦
            let (a, e, h') =
              bind-ok (no_error (run_command conn names (codes "uname -m"))) _ w (rw known at h) in
            of_arch-KnownName os name a (is_supported os known) (ap (λ p. p.0) h')
      ]

  of_os-KnownName :
      (o : Output) (name : List ℕ) (w w' : W)
      → of_os conn names o w ≡ (ok name, w')
      → KnownName name
  unfolding ◌>>=◌
  of_os-KnownName (o, some e) name w w' h = inl (sym (ok-injective (ap (λ p. p.0) h)))
  of_os-KnownName (o, none) name w w' h =
      name_for_arch-KnownName (names.to_lower (trim_space o)) name w w' h

  -- Where executerBinName returns a name, it is that of the executer for Linux or macOS and one of
  -- the two architectures, or it is empty.
  pub executer_bin_name-KnownName :
      (name : List ℕ) (w w' : W) → executer_bin_name conn names w ≡ (ok name, w') → KnownName name
  unfolding executer_bin_name
  executer_bin_name-KnownName name w w' h =
      let (o, e, h') = bind-ok (no_error (run_command conn names (codes "uname -s"))) _ w h in
      of_os-KnownName o name _ w' h'
