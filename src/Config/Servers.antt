-- ===== src/Config/Servers.antt =====
-- The loops of ReadConfig of internal/config/config.go that bind an entry to a server.
use ugoku.Base.{
  ◌≡◌, refl, ap, ◌∙◌, ◌⊎◌, inl, inr, Text, same, same→eq, same_refl, true, false, List, [], ◌∷◌,
  ◌++◌, All, Bool-cases, if◌then◌else◌,
}
use ugoku.Config.{ServerConfig, resolve}

-- No server of the list has the name.
abbrev pub Absent : Text → List ServerConfig → Type 0
Absent wanted = All (λ (s : ServerConfig). same s.name wanted ≡ false)

resolve-Absent :
    (wanted : Text) (servers : List ServerConfig) (current : ServerConfig)
    → Absent wanted servers
    → resolve wanted servers current ≡ current
unfolding resolve
resolve-Absent wanted [] current h = refl
resolve-Absent wanted (s ∷ servers) current h = rw h.0 (resolve-Absent wanted servers current h.1)

resolve_hit :
    (wanted : Text) (servers : List ServerConfig) (s current : ServerConfig)
    → same s.name wanted ≡ true
    → resolve wanted (s ∷ servers) current ≡ resolve wanted servers s
unfolding resolve
resolve_hit wanted servers s current h = rw (h, resolve)

-- The last server with the wanted name is the one that is chosen.
pub resolve_last :
    (wanted : Text) (before after : List ServerConfig) (s current : ServerConfig)
    → same s.name wanted ≡ true
    → Absent wanted after
    → resolve wanted (before ++ s ∷ after) current ≡ s
unfolding resolve
resolve_last wanted [] after s current h a =
    rw (resolve_hit wanted after s current h) (resolve-Absent wanted after s a)
resolve_last wanted (b ∷ before) after s current h a = resolve_last wanted before after s _ h a

-- What the loop over the servers leaves: the field as it was, if no server has the wanted name, or
-- else the last server of the list that has it.
pub resolve_cases :
    (wanted : Text) (servers : List ServerConfig) (current : ServerConfig)
    → (Absent wanted servers × (resolve wanted servers current ≡ current))
      ⊎ ((before : List ServerConfig) × (s : ServerConfig) × (after : List ServerConfig) × (servers
            ≡ before ++ s ∷ after)
          × (s.name ≡ wanted)
          × Absent wanted after
          × (resolve wanted servers current ≡ s))
unfolding resolve
resolve_cases wanted [] current = inl (tt, refl)
resolve_cases wanted (x ∷ servers) current =
    elim (resolve_cases wanted servers (if same x.name wanted then x else current)) [
      | inr (before, s, after, e, n, a, r) ↦ inr (x ∷ before, s, after, ap (◌∷◌ x) e, n, a, r)
      | inl (a, r) ↦ elim (Bool-cases (same x.name wanted)) [
        | inl hit ↦ inr (
          [],
          x,
          servers,
          refl,
          same→eq x.name wanted hit,
          a,
          resolve_hit wanted servers x current hit ∙ resolve-Absent wanted servers x a,
        )
        | inr miss ↦ inl ((miss, a), resolve-Absent wanted (x ∷ servers) current (miss, a))
      ]
    ]

-- Looking a name up again in the same servers changes nothing.
pub resolve_idem :
    (wanted : Text) (servers : List ServerConfig) (current : ServerConfig)
    → resolve wanted servers (resolve wanted servers current) ≡ resolve wanted servers current
resolve_idem wanted servers current = elim (resolve_cases wanted servers current) [
  | inl (a, r) ↦ rw r r
  | inr (before, s, after, e, n, a, r) ↦
      rw (r, e) (resolve_last wanted before after s s (rw n (same_refl wanted)) a)
]
