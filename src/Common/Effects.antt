-- ===== src/Common/Effects.antt =====
-- Calls that change a state and return a value: the state comes back beside the value.
abbrev pub Exec {ℓ} : Type ℓ → Type ℓ → Type ℓ
Exec S A = S → A × S
