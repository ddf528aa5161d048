-- ===== src/Dbstore/Statement/Own.antt =====
-- The statements of a commit concern the server of its source only.
use recsync.Prelude.{ℕ, ◌≡◌, ◌⊎◌, inl, inr, refl, [], ◌∷◌, List, map, Str, All, All-append}
use recsync.Dict.{Dict}
use recsync.Recast.Transaction.{Transaction}
use recsync.Dbstore.Settings.{DbConfig}
use recsync.Dbstore.Statement.{SqlValue, Row, Statement, alias_rows, info_rows, statements}

-- The server's id is in the first or the second column.
abbrev pub Concerns : SqlValue → Row → Type 0
Concerns srvid [] = ⊥
Concerns srvid (a ∷ []) = a ≡ srvid
Concerns srvid (a ∷ b ∷ rest) = (a ≡ srvid) ⊎ (b ≡ srvid)

All-map {ℓ κ μ} :
    {A : Type ℓ} {B : Type κ} (P : B → Type μ) (f : A → B)
    → ((a : A) → P (f a))
    → (l : List A) → All P (map f l)
All-map P f h [] = tt
All-map P f h (a ∷ l) = (h a, All-map P f h l)

module _ (c : DbConfig) (srvid : SqlValue) where
  alias_rows-Own : (aliases : Dict ℕ (List Str)) → All (Concerns srvid) (alias_rows c srvid aliases)
  unfolding alias_rows
  alias_rows-Own [] = tt
  alias_rows-Own ((recid, names) ∷ aliases) =
      All-append (Concerns srvid) _ _ (All-map (Concerns srvid) _ (λ name. inr refl) names)
        (alias_rows-Own aliases)

  info_rows-Own : (infos : Dict ℕ (Dict Str Str)) → All (Concerns srvid) (info_rows c srvid infos)
  unfolding info_rows
  info_rows-Own [] = tt
  info_rows-Own ((recid, infos) ∷ rest) =
      All-append (Concerns srvid) _ _ (All-map (Concerns srvid) _ (λ i. inr refl) infos)
        (info_rows-Own rest)

  pub statements-Own :
      (t : Transaction) → All (λ (s : Statement). All (Concerns srvid) s.1) (statements c srvid t)
  unfolding statements
  statements-Own t = (
    All-map (Concerns srvid) _ (λ i. inl refl) t.client_infos,
    (
      All-append (Concerns srvid) _ _ (All-map (Concerns srvid) _ (λ r. inl refl) t.records_to_add)
          (All-map (Concerns srvid) _ (λ id. inl refl) t.records_to_delete),
      (
        All-map (Concerns srvid) _ (λ r. inl refl) t.records_to_add,
        (
          All-map (Concerns srvid) _ (λ r. inr refl) t.records_to_add,
          (alias_rows-Own t.aliases, (info_rows-Own t.record_infos_to_add, tt)),
        ),
      ),
    ),
  )
