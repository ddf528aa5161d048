-- ===== src/Configuration/Environment.antt =====
-- What the environment sets.
use recsync.Prelude.{
  ℕ, suc, ◌≡◌, refl, ◌∙◌, [], ◌∷◌, ◌++◌, true, Option, none, some, Str, ok, str_eq, str_beq_iff,
  arith, nat_beq, Option-cases, inl, inr,
}
use recsync.Dict
use recsync.Dict.{Dict, get-put}
use recsync.Text.{lower, upper, without_prefix}
use recsync.Text.Split.{Lacks, without_prefix-append, lower-upper}
use recsync.Configuration.{
  Parser, has_section, plain, scan, interpolate, prefix_of, prefixed, env_vars, config_adapter, raw,
  or_else, parser_get, get_or_default, get_text,
}

scan-plain : (value : Str → _) (s : Str) → Lacks (λ c. nat_beq c b'%') s → scan value plain s ≡ ok s
unfolding interpolate
scan-plain value [] h = refl
scan-plain value (c ∷ s) h = rw (h.0, scan-plain value s h.1)

interpolate_plain :
    (depth : ℕ) (options : Str → Option Str) (s : Str)
    → Lacks (λ c. nat_beq c b'%') s
    → interpolate (suc depth) options s ≡ ok s
unfolding interpolate
interpolate_plain depth options s h = scan-plain _ s h

get-nil : (option : Str) → Dict.get {V = Str} [] option ≡ none
unfolding Dict.get
get-nil option = refl

-- Later variables win.
get-prefixed :
    (prefix : Str) (environ found : Dict Str Str) (option : Str)
    → Dict.get (prefixed prefix environ found) option
      ≡ or_else (Dict.get (prefixed prefix environ []) option) (Dict.get found option)
unfolding prefixed
get-prefixed prefix [] found option = unfold Dict.get in refl
get-prefixed prefix ((k, v) ∷ environ) found option =
    elim (Option-cases (without_prefix prefix k)) [
      | inl other ↦ rw other (get-prefixed prefix environ found option)
      | inr (o, e) ↦ rw e (
          rw (get-prefixed prefix environ (Dict.put found (lower o) v) option) (
            rw (get-prefixed prefix environ (Dict.put [] (lower o) v) option) (
              rw (get-put found (lower o) option v)
                (rw (get-put [] (lower o) option v) (ground (arith, get-nil option))))))
    ]

-- The variable is one of the section's.
vars_first :
    (environ : Dict Str Str) (section key value : Str)
    → Dict.get (env_vars environ section) (lower key) ≡ none
    → Dict.get (env_vars ((prefix_of section ++ upper key, value) ∷ environ) section) (lower key)
      ≡ some value
unfolding env_vars prefixed
vars_first environ section key value others =
    rw (without_prefix-append (prefix_of section) (upper key)) (
      get-prefixed (prefix_of section) environ (Dict.put [] (lower (upper key)) value) (lower key)
      ∙ rw others (
          rw (get-put [] (lower (upper key)) (lower key) value)
            (ground (arith, lower-upper key, str_beq_iff (lower (upper key)) (lower key)))))

raw_var :
    (environ : Dict Str Str) (parser : Parser) (section option value : Str)
    → Dict.get (env_vars environ section) option ≡ some value
    → raw (config_adapter environ parser section) option ≡ some value
unfolding raw config_adapter
raw_var environ parser section option value e = rw e refl

-- A variable named for a section and an option, in upper case, is what `get` returns for the
-- option in any case, whatever the files set, if its value has no percent sign and no other
-- variable sets the option.
pub get_text-environment :
    (environ : Dict Str Str) (parser : Parser) (section key value default : Str)
    → has_section parser section ≡ true
    → Dict.get (env_vars environ section) (lower key) ≡ none
    → Lacks (λ c. nat_beq c b'%') value
    → get_text
        (config_adapter ((prefix_of section ++ upper key, value) ∷ environ) parser section)
        key
        default
      ≡ ok value
unfolding get_text parser_get config_adapter get_or_default
get_text-environment environ parser section key value default there others plain_text = rw there (
    rw
      (raw_var ((prefix_of section ++ upper key, value) ∷ environ) parser section (lower key) value
        (vars_first environ section key value others))
      (rw (interpolate_plain 9 _ value plain_text) refl))
