-- ===== src/Requirements/Canonical.antt =====
-- The canonical text of packages/core/src/requirements-offering-quote.ts is the plain one, exactly
-- where its UTF-8 bytes are within the limit.
use tool.Common.{
  ℕ, ◌≤◌, ◌<◌, Bool, true, false, [], ◌∷◌, ◌++◌, Result, ok, err, ok-injective, ◌>>=◌, ◌≡◌, ◌↔◌,
  inl, inr, refl, arith, ap, sym, ◌∙◌, if◌then◌else◌,
}
use tool.Common.Text.{Text, codes}
use tool.Js.{Number}
use tool.Requirements.Captured.{Captured, Properties, Items, end, property, nil, cons}
use tool.Requirements.Keys.{max_canonical_bytes, over_limit}
use tool.Requirements.Emit.{
  Emitter, new_emitter, is_ascii, append_ascii, emit_captured_value, emit_properties, emit_items,
  finish_canonical_emitter,
}
use tool.Requirements.{Host, canonicalize_captured}
use tool.Requirements.Utf8.{size}
use tool.Requirements.Print.{quoted, separator, print, print_properties, print_items}
use tool.Requirements.Writes.{
  text, IsBounded, Writes, append_ascii-Writes, chain-Writes, return-Writes,
  emit_json_string-Writes,
}

separator-Writes :
    (e : Emitter) (later : Bool)
    → IsBounded e
    → Writes e (if later then append_ascii e (b',' ∷ []) else ok e) (separator later)
unfolding separator is_ascii
separator-Writes e true b = append_ascii-Writes e (b',' ∷ []) refl
separator-Writes e false b = return-Writes e b

module _ (number_text : Number → Text)
    (plain : (n : Number) → is_ascii (number_text n) ≡ true) where
  -- What stands between two brackets.
  between-Writes :
      (e : Emitter) (left right : ℕ) (inner : Emitter → Result Emitter) (v : Text)
      → IsBounded e
      → is_ascii (left ∷ []) ≡ true
      → is_ascii (right ∷ []) ≡ true
      → ((e' : Emitter) → IsBounded e' → Writes e' (inner e') v)
      → Writes e
          (append_ascii e (left ∷ []) >>= λ e1. inner e1 >>= λ e2. append_ascii e2 (right ∷ []))
          ((left ∷ []) ++ (v ++ (right ∷ [])))
  between-Writes e left right inner v b p q f =
      chain-Writes e (append_ascii e (left ∷ []))
        (λ e1. inner e1 >>= λ e2. append_ascii e2 (right ∷ [])) (left ∷ []) (v ++ (right ∷ [])) b
        (append_ascii-Writes e (left ∷ []) p)
        (λ e1 b1.
          chain-Writes e1 (inner e1) (λ e2. append_ascii e2 (right ∷ [])) v (right ∷ []) b1
            (f e1 b1) (λ e2 b2. append_ascii-Writes e2 (right ∷ []) q))

  mutual
    unfolding emit_captured_value print is_ascii

    emit-Writes :
        (c : Captured) (e : Emitter)
        → IsBounded e
        → Writes e (emit_captured_value number_text c e) (print number_text c)
    emit-Writes Captured.null e b = append_ascii-Writes e (codes "null") refl
    emit-Writes (Captured.boolean true) e b = append_ascii-Writes e (codes "true") refl
    emit-Writes (Captured.boolean false) e b = append_ascii-Writes e (codes "false") refl
    emit-Writes (Captured.string s) e b = emit_json_string-Writes e s b
    emit-Writes (Captured.number n) e b = append_ascii-Writes e (number_text n) (plain n)
    emit-Writes (Captured.object ps) e b =
        between-Writes e b'{' b'}' (emit_properties number_text ps false)
          (print_properties number_text ps false) b refl refl
          (λ e1 b1. emit_properties-Writes ps false e1 b1)
    emit-Writes (Captured.array vs) e b =
        between-Writes e b'[' b']' (emit_items number_text vs false)
          (print_items number_text vs false) b refl refl (λ e1 b1. emit_items-Writes vs false e1 b1)

    emit_properties-Writes :
        (ps : Properties) (later : Bool) (e : Emitter)
        → IsBounded e
        → Writes e (emit_properties number_text ps later e) (print_properties number_text ps later)
    emit_properties-Writes end later e b = return-Writes e b
    emit_properties-Writes (property k v ps) later e b =
        chain-Writes e _ _ (separator later) _ b (separator-Writes e later b) (λ e1 b1.
          chain-Writes e1 _ _ (quoted k) _ b1 (emit_json_string-Writes e1 k b1) (λ e2 b2.
            chain-Writes e2 _ _ (b':' ∷ []) _ b2 (append_ascii-Writes e2 (b':' ∷ []) refl) (λ e3 b3.
              chain-Writes e3 _ _ (print number_text v) _ b3 (emit-Writes v e3 b3)
                (λ e4 b4. emit_properties-Writes ps true e4 b4))))

    emit_items-Writes :
        (vs : Items) (later : Bool) (e : Emitter)
        → IsBounded e
        → Writes e (emit_items number_text vs later e) (print_items number_text vs later)
    emit_items-Writes nil later e b = return-Writes e b
    emit_items-Writes (cons v vs) later e b =
        chain-Writes e _ _ (separator later) _ b (separator-Writes e later b) (λ e1 b1.
          chain-Writes e1 _ _ (print number_text v) _ b1 (emit-Writes v e1 b1)
            (λ e2 b2. emit_items-Writes vs true e2 b2))

text-new : text new_emitter ≡ []
unfolding finish_canonical_emitter
text-new = refl

module _ (host : Host) where
  -- Where the host prints every number in ASCII: captured requirements have a canonical text exactly
  -- when their plain text is of at most 32768 bytes in UTF-8, and it is that text; otherwise the
  -- limit is reported.
  pub canonicalize_captured_iff :
      (plain : (n : Number) → is_ascii (host.number_text n) ≡ true) (c : Captured)
      → ((t : Text)
          → (canonicalize_captured host c ≡ ok t) ↔ (
              (t ≡ print host.number_text c)
              × (size (print host.number_text c) ≤ max_canonical_bytes)))
        × (max_canonical_bytes < size (print host.number_text c)
            → canonicalize_captured host c ≡ err over_limit)
  unfolding canonicalize_captured
  canonicalize_captured_iff plain c =
      elim ((emit-Writes host.number_text plain c new_emitter (omega arith)).outcome) [
        | inl (q, over) ↦ (
          λ t. (λ h. absurd (ground arith), λ h. absurd (omega (arith, h.1, over))),
          λ h. rw q refl,
        )
        | inr (e, q, a) ↦
            let same : text e ≡ print host.number_text c =
              a.appended ∙ ap (λ x. x ++ print host.number_text c) text-new in
            let r : canonicalize_captured host c ≡ ok (text e) = rw q refl in
            (
              λ t. (
                λ h. (ok-injective (sym h ∙ r) ∙ same, omega (arith, a.counted, a.bounded)),
                λ h. r ∙ ap ok (same ∙ sym (h.0)),
              ),
              λ h. absurd (omega (arith, a.counted, a.bounded)),
            )
      ]
