-- ===== src/Logging/Redaction.antt =====
-- What the redaction hides, and what it leaves.
use eventmesh.Base.{
  String, Bool, true, false, ◌&&◌, ◌||◌, ◌≡◌, refl, sym, ap, ◌∙◌, List, [], ◌∷◌, map, str_eq, any,
  Has, inl, inr, arith, eq_iff, if◌then◌else◌, Bool-cases, any-Has, Has-map_of,
}
use eventmesh.Logging.{is_redacted, redacted, set_redacted, redact_all, redact_processor, process}

module _ {V : Type 0} (text : String → V) where
  -- An entry with its value, or with the redaction.
  abbrev pub hide : Bool → String × V → String × V
  hide true p = (p.0, redacted text)
  hide false p = p

  abbrev pub hide_secret : String × V → String × V
  hide_secret p = hide (is_redacted p.0) p

  abbrev hide_key : String → String × V → String × V
  hide_key k p = hide (is_redacted k && str_eq p.0 k) p

  abbrev hide_among : List String → String × V → String × V
  hide_among ks p = hide (is_redacted p.0 && any (str_eq p.0) ks) p

  set_redacted-map :
      (k : String) (b : Bool) (d : List (String × V))
      → (if b then set_redacted text k d else d) ≡ map (λ p. hide (b && str_eq p.0 k) p) d
  set_redacted-map k b [] = ground arith
  set_redacted-map k true (p ∷ d) = elim (Bool-cases (str_eq p.0 k)) [
    | inl e ↦ rw e (ap (◌∷◌ (p.0, redacted text)) (set_redacted-map k true d))
    | inr e ↦ rw e (ap (◌∷◌ p) (set_redacted-map k true d))
  ]
  set_redacted-map k false (p ∷ d) = ap (◌∷◌ p) (set_redacted-map k false d)

  hide-twice : (b c : Bool) (p : String × V) → hide c (hide b p) ≡ hide (b || c) p
  hide-twice true true p = refl
  hide-twice true false p = refl
  hide-twice false c p = refl

  hide_key_name : (b : Bool) (p : String × V) → (hide b p).0 ≡ p.0
  hide_key_name true p = refl
  hide_key_name false p = refl

  joined :
      (k : String) (ks : List String) (n : String)
      → (is_redacted k && str_eq n k) || (is_redacted n && any (str_eq n) ks)
        ≡ is_redacted n && any (str_eq n) (k ∷ ks)
  joined k ks n = elim (Bool-cases (str_eq n k)) [
    | inl e ↦ ground (arith, ap is_redacted ((eq_iff n k).0 e))
    | inr e ↦ ground arith
  ]

  hide_among-cons :
      (k : String) (ks : List String) (p : String × V)
      → hide_among ks (hide_key k p) ≡ hide_among (k ∷ ks) p
  hide_among-cons k ks p = rw (hide_key_name (is_redacted k && str_eq p.0 k) p) (
      hide-twice (is_redacted k && str_eq p.0 k) (is_redacted p.0 && any (str_eq p.0) ks) p
      ∙ ap (λ b. hide b p) (joined k ks p.0))

  map_then :
      (f g h : String × V → String × V) (d : List (String × V))
      → ((p : String × V) → g (f p) ≡ h p)
      → map g (map f d) ≡ map h d
  map_then f g h [] e = refl
  map_then f g h (p ∷ d) e = λ i. e p i ∷ map_then f g h d e i

  map_same : (d : List (String × V)) → d ≡ map (hide_among []) d
  map_same [] = refl
  map_same (p ∷ d) = ground (arith, map_same d)

  redact_all_lem :
      (ks : List String) (d : List (String × V)) → redact_all text ks d ≡ map (hide_among ks) d
  redact_all_lem [] d = map_same d
  redact_all_lem (k ∷ ks) d =
      ap (redact_all text ks) (set_redacted-map k (is_redacted k) d)
      ∙ redact_all_lem ks _
      ∙ map_then (hide_key k) (hide_among ks) (hide_among (k ∷ ks)) d (hide_among-cons k ks)

  map_on :
      (f g : String × V → String × V) (d : List (String × V))
      → ((p : String × V) → Has p d → f p ≡ g p)
      → map f d ≡ map g d
  map_on f g [] e = refl
  map_on f g (p ∷ d) e = λ i. e p (inl refl) i ∷ map_on f g d (λ q m. e q (inr m)) i

  -- The loop over the keys changes each entry by itself.
  pub redact_processor-map : (d : List (String × V)) → redact_processor text d ≡ map hide_secret d
  unfolding redact_processor
  redact_processor-map d =
      redact_all_lem (map (λ p. p.0) d) d
      ∙ map_on (hide_among (map (λ p. p.0) d)) hide_secret d λ p m.
        let among =
          any-Has (str_eq p.0) (map (λ q. q.0) d) p.0 (Has-map_of (λ q. q.0) p d m)
            ((eq_iff p.0 p.0).1 refl) in
        ap (λ b. hide b p) (ground arith)

  -- The same keys, and the same values but under redacted keys
  abbrev pub SameOutside : List (String × V) → List (String × V) → Type 0
  SameOutside [] [] = Unit
  SameOutside [] (q ∷ e) = ⊥
  SameOutside (p ∷ d) [] = ⊥
  SameOutside (p ∷ d) (q ∷ e) =
      (p.0 ≡ q.0) × (is_redacted p.0 ≡ false → p.1 ≡ q.1) × SameOutside d e

  hide_secret_same :
      (p q : String × V)
      → p.0 ≡ q.0
      → (is_redacted p.0 ≡ false → p.1 ≡ q.1)
      → hide_secret p ≡ hide_secret q
  hide_secret_same p q k v = elim (Bool-cases (is_redacted p.0)) [
    | inl e ↦ rw (e, sym (ap is_redacted k) ∙ e) (λ i. (k i, redacted text))
    | inr e ↦ rw (e, sym (ap is_redacted k) ∙ e) (λ i. (k i, v e i))
  ]

  map_hide_same :
      (d e : List (String × V)) → SameOutside d e → map hide_secret d ≡ map hide_secret e
  map_hide_same [] [] h = refl
  map_hide_same [] (q ∷ e) h = absurd h
  map_hide_same (p ∷ d) [] h = absurd h
  map_hide_same (p ∷ d) (q ∷ e) (k, v, h) = λ i. hide_secret_same p q k v i ∷ map_hide_same d e h i

  -- A processor that does not read one entry's value into another entry.
  abbrev pub KeepsApart : (List (String × V) → List (String × V)) → Type 0
  KeepsApart f = (d e : List (String × V)) → SameOutside d e → SameOutside (f d) (f e)

  -- If the processors before the redaction keep the values under redacted keys out of the other
  -- entries, then two events that differ in such values only are printed as one line. The renderer is
  -- given the keys in their order, the redaction under each key that is, in any case of its letters,
  -- one of the redacted keys, and every other value as it was.
  pub process_hides :
      (merge_contextvars add_log_level time_stamper : List (String × V) → List (String × V))
      (json_renderer : List (String × V) → String) (d e : List (String × V))
      → KeepsApart merge_contextvars
      → KeepsApart add_log_level
      → KeepsApart time_stamper
      → SameOutside d e
      → (process text merge_contextvars add_log_level time_stamper json_renderer d
          ≡ process text merge_contextvars add_log_level time_stamper json_renderer e)
        × (process text merge_contextvars add_log_level time_stamper json_renderer d
            ≡ json_renderer (map hide_secret (time_stamper (add_log_level (merge_contextvars d)))))
  unfolding process
  process_hides merge level stamp render d e keeps_merge keeps_level keeps_stamp same =
      let before = keeps_stamp _ _ (keeps_level _ _ (keeps_merge d e same)) in
      let shown = ap render (redact_processor-map (stamp (level (merge d)))) in
      (
        shown
            ∙ ap render (map_hide_same _ _ before)
            ∙ ap render (sym (redact_processor-map (stamp (level (merge e))))),
        shown,
      )
