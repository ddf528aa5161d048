-- ===== src/Processors/Startup/Sections.antt =====
-- What a start of the controller leaves of the configuration.
use recsync.Prelude.{
  suc, ◌≡◌, ◌≢◌, refl, ap, ◌∙◌, subst, [], ◌∷◌, true, false, List, Option, none, some, Str, codes,
  Result, ok, str_eq, str_beq_iff, arith, All, length, Bool-cases, Option-cases, inl, inr,
  >>=-eq-ok, ok-injective, ◌==◌,
}
use recsync.Dict
use recsync.Dict.{Dict, get-put}
use recsync.Text.{split, comma}
use recsync.Configuration.{
  Parser, has_section, add_section, ConfigAdapter, config_adapter, parser_get,
}
use recsync.Processors.Startup.{
  proc_names, with_section, with_defaults, found_plug, build_all, processor_controller,
}

-- No section is lost or changed.
pub record Keeps (p q : Parser) : Type 0 where
  pub kept :
      (section : Str) (options : Dict Str Str)
      → Dict.get p.sections section ≡ some options
      → Dict.get q.sections section ≡ some options
  pub defaults_kept : q.defaults ≡ p.defaults

Keeps-refl : (p : Parser) → Keeps p p
Keeps-refl p = record { kept = λ s o h. h; defaults_kept = refl }

Keeps-trans : {p q r : Parser} → Keeps p q → Keeps q r → Keeps p r
Keeps-trans pq qr = record {
  kept = λ s o h. qr.kept s o (pq.kept s o h);
  defaults_kept = qr.defaults_kept ∙ pq.defaults_kept;
}

has_section-get :
    (p : Parser) (section : Str)
    → has_section p section ≡ true
    → (options : Dict Str Str) × (Dict.get p.sections section ≡ some options)
unfolding has_section Dict.contains
has_section-get p section h = elim (Option-cases (Dict.get p.sections section)) [
  | inl e ↦ absurd (ground arith)
  | inr there ↦ there
]

get-has_section :
    (p : Parser) (section : Str) (options : Dict Str Str)
    → Dict.get p.sections section ≡ some options
    → has_section p section ≡ true
unfolding has_section Dict.contains
get-has_section p section options h = rw (h, Dict.contains) refl

pub Keeps-has_section :
    {p q : Parser}
    → Keeps p q
    → (section : Str) → has_section p section ≡ true
    → has_section q section ≡ true
Keeps-has_section {q = q} k section h =
    let (options, e) = has_section-get _ section h in
    get-has_section q section options (k.kept section options e)

new_section-kept :
    (d : Dict Str (Dict Str Str)) (section s : Str) (o : Dict Str Str)
    → Dict.contains d section ≡ false
    → Dict.get d s ≡ some o
    → Dict.get (Dict.put d section []) s ≡ some o
unfolding Dict.contains
new_section-kept d section s o new h =
    rw (get-put d section s []) (ground (arith, str_beq_iff section s))

add_section-Keeps :
    (p q : Parser) (section : Str)
    → has_section p section ≡ false
    → add_section p section ≡ ok q
    → Keeps p q × (has_section q section ≡ true)
unfolding add_section has_section
add_section-Keeps p q section new h = elim (Bool-cases (section == codes "DEFAULT")) [
  | inl d ↦ absurd (ground arith)
  | inr other ↦
      let made : ◌≡◌ {A = Result Parser}
          (ok (record p { sections = Dict.put p.sections section [] })) (ok q) =
        rw other at h in
      subst (λ r. Keeps p r × (Dict.contains r.sections section ≡ true)) (ok-injective made)
        (
          record {
            kept = λ s o there. new_section-kept p.sections section s o new there;
            defaults_kept = refl;
          },
          unfold Dict.contains in
              ground (arith, get-put p.sections section section [], str_beq_iff section section),
        )
]

with_section-Keeps :
    (p q : Parser) (section : Str)
    → with_section p section ≡ ok q
    → Keeps p q × (has_section q section ≡ true)
unfolding with_section
with_section-Keeps p q section h = elim (Bool-cases (has_section p section)) [
  | inl there ↦
      let same : ◌≡◌ {A = Result Parser} (ok p) (ok q) = rw there at h in
      subst (λ r. Keeps p r × (has_section r section ≡ true)) (ok-injective same)
        (Keeps-refl p, there)
  | inr new ↦ add_section-Keeps p q section new (rw new at h)
]

module _ {P I : Type 0} (plugs : Dict Str P) (environ : Dict Str Str)
    (build : P → Str → ConfigAdapter → Result I) where
  -- The plugin of an item is known, and its instance has a section.
  pub record IsReady (q : Parser) (item : Str) : Type 0 where
    pub known : Dict.get plugs (proc_names item).0 ≢ none
    pub sectioned : has_section q (proc_names item).1 ≡ true

  pub record Started (items : List Str) (p : Parser) (out : List I × Parser) : Type 0 where
    pub one_each : length out.0 ≡ length items
    pub keeps : Keeps p out.1
    pub ready : All (IsReady out.1) items

  found_plug-ok : (o : Option P) (plug : P) → found_plug o ≡ ok plug → o ≢ none
  found_plug-ok none plug h = absurd cc
  found_plug-ok (some x) plug h = λ e. cc

  build_all-Started :
      (items : List Str) (p : Parser) (out : List I × Parser)
      → build_all plugs environ build items p ≡ ok out
      → Started items p out
  unfolding build_all
  build_all-Started [] p out h =
      subst (Started [] p) (ok-injective h)
        (record { one_each = refl; keeps = Keeps-refl p; ready = tt })
  build_all-Started (item ∷ items) p out h =
      let (plug, e_plug, h1) = >>=-eq-ok (found_plug (Dict.get plugs (proc_names item).0)) _ h in
      let (q, e_section, h2) = >>=-eq-ok (with_section p (proc_names item).1) _ h1 in
      let (inst, e_build, h3) =
        >>=-eq-ok (build plug (proc_names item).1 (config_adapter environ q (proc_names item).1)) _
          h2 in
      let (rest, e_rest, h4) = >>=-eq-ok (build_all plugs environ build items q) _ h3 in
      let s = build_all-Started items q rest e_rest in
      let (kept, sectioned) = with_section-Keeps p q (proc_names item).1 e_section in
      subst (Started (item ∷ items) p) (ok-injective h4) (record {
        one_each = ap (λ n. suc n) s.one_each;
        keeps = Keeps-trans kept s.keeps;
        ready = (
          record {
            known = found_plug-ok (Dict.get plugs (proc_names item).0) plug e_plug;
            sectioned = Keeps-has_section s.keeps (proc_names item).1 sectioned;
          },
          s.ready,
        );
      })

  with_section_there :
      (p : Parser) (section : Str) → has_section p section ≡ true → with_section p section ≡ ok p
  unfolding with_section
  with_section_there p section there = rw there refl

  -- Where a file has configured the section recceiver and its processors, a start of the
  -- controller that succeeds builds one processor for each item, whose plugin is known and whose
  -- instance has a section, and every section that was there keeps its options.
  pub processor_controller-Started :
      (p : Parser) (procs : Str) (out : List I × Parser)
      → has_section p (codes "recceiver") ≡ true
      → parser_get (config_adapter environ p (codes "recceiver")) (codes "procs") ≡ ok procs
      → processor_controller plugs environ build true p ≡ ok out
      → Started (split comma procs) p out
  unfolding processor_controller with_defaults
  processor_controller-Started p procs out there set h =
      build_all-Started (split comma procs) p out
        (rw set at (rw (with_section_there p (codes "recceiver") there) at h))
