-- ===== src/Audit/Tamper.antt =====
-- What a checkpoint that is kept elsewhere says of a log that it is checked against.
use Prim.Native.String.{count, ◌++◌ as append}
use text.Mathlib.TextLemmas.{append_inj, append_cancel_left}
use cyber_core.Base.{
  IsListed, here, there, ℕ, String, true, ◌≡◌, ◌≢◌, refl, ap, subst, ◌∙◌, sym, ◌⊎◌, inl, inr, List,
  [], ◌∷◌, length, eq_iff, arith, some, Bool-cases, ◌==◌, string_eq, beq→eq,
}
use cyber_core.Audit.Sink.{AuditRow, AuditTable, genesis, last_hash, event_digest}
use cyber_core.Audit.Checkpoint.{AuditCheckpoint, verify_anchored_checkpoint}
use cyber_core.Audit.Chain.{IsChain, first, length-first, first-IsChain}
use cyber_core.Audit.Anchored.{verify-IsAnchored}

-- The text that the hash of a row is the digest of
abbrev pub hashed : AuditRow → String
hashed row = append row.previous_hash (append "\n" row.payload)

-- A row of the one log and a row of the other whose texts differ, but have one digest
pub record Collision (digest : String → String) (rows others : List AuditRow) : Type 0 where
  pub one : AuditRow
  pub two : AuditRow
  pub one_listed : IsListed one rows
  pub two_listed : IsListed two others
  pub distinct : hashed one ≢ hashed two
  pub same_digest : digest (hashed one) ≡ digest (hashed two)

later-Collision :
    {digest : String → String} {rows others : List AuditRow} (a b : AuditRow)
    → Collision digest rows others
    → Collision digest (a ∷ rows) (b ∷ others)
later-Collision a b c = record {
  one = c.one;
  two = c.two;
  one_listed = there c.one_listed;
  two_listed = there c.two_listed;
  distinct = c.distinct;
  same_digest = c.same_digest;
}

digest-binds :
    (digest : String → String) (a b : AuditRow) (rows others : List AuditRow)
    → digest (hashed a) ≡ digest (hashed b)
    → (hashed a ≡ hashed b) ⊎ Collision digest (a ∷ rows) (b ∷ others)
digest-binds digest a b rows others same = elim (Bool-cases (hashed a == hashed b)) [
  | inl equal ↦ inl (beq→eq (hashed a) (hashed b) equal)
  | inr other ↦ inr (record {
    one = a;
    two = b;
    one_listed = here;
    two_listed = here;
    distinct = λ e. ground (arith, other, (eq_iff (hashed a) (hashed b)).1 e);
    same_digest = same;
  })
]

-- A hash of known width, the newline and the payload can be told apart.
parts_of_input :
    (p q s t : String)
    → count p ≡ count q
    → append p (append "\n" s) ≡ append q (append "\n" t)
    → (p ≡ q) × (s ≡ t)
parts_of_input p q s t counted e =
    let (before, after) = append_inj e counted in (before, append_cancel_left "\n" s t after)

AuditRow-eq :
    (a b : AuditRow)
    → a.seq ≡ b.seq
    → a.payload ≡ b.payload
    → a.previous_hash ≡ b.previous_hash
    → a.event_hash ≡ b.event_hash
    → a ≡ b
AuditRow-eq a b e f g h =
    λ i. record { seq = e i; payload = f i; previous_hash = g i; event_hash = h i }

module _ (digest : String → String) (width : (s : String) → count (digest s) ≡ 64) where
  -- One row, where the rows after it agree
  same_row :
      (a b : AuditRow) (rows others : List AuditRow)
      → a.seq ≡ b.seq
      → count a.previous_hash ≡ count b.previous_hash
      → a.event_hash ≡ event_digest digest a.previous_hash a.payload
      → b.event_hash ≡ event_digest digest b.previous_hash b.payload
      → a.event_hash ≡ b.event_hash
      → (a ≡ b) ⊎ Collision digest (a ∷ rows) (b ∷ others)
  same_row a b rows others counted wide ha hb same =
      elim (digest-binds digest a b rows others (sym ha ∙ same ∙ hb)) [
        | inr collision ↦ inr collision
        | inl e ↦
            let (before, payload) =
              parts_of_input a.previous_hash b.previous_hash a.payload b.payload wide e in
            inl (AuditRow-eq a b counted payload before same)
      ]

  -- Two chains of the same length that end in the same hash are the same chain.
  same_chain :
      (seq : ℕ) (p q : String) (rows others : List AuditRow)
      → count p ≡ 64
      → count q ≡ 64
      → IsChain digest seq p rows
      → IsChain digest seq q others
      → length rows ≡ length others
      → last_hash p rows ≡ last_hash q others
      → ((p ≡ q) × (rows ≡ others)) ⊎ Collision digest rows others
  unfolding IsChain last_hash
  same_chain seq p q [] [] hp hq c d long same = inl (same, refl)
  same_chain seq p q [] (b ∷ others) hp hq c d long same = absurd (omega (arith, long))
  same_chain seq p q (a ∷ rows) [] hp hq c d long same = absurd (omega (arith, long))
  same_chain seq p q (a ∷ rows) (b ∷ others) hp hq (sa, pa, ha, ca) (sb, pb, hb, cb) long same =
      let onward = subst (λ n. IsChain digest n b.event_hash others) (sb ∙ sym sa) cb in
      let later =
        same_chain a.seq a.event_hash b.event_hash rows others (ap count ha ∙ width _)
          (ap count hb ∙ width _) ca onward (omega (arith, long)) same in
      elim later [
        | inr collision ↦ inr (later-Collision a b collision)
        | inl (hash, rest) ↦
            elim (same_row a b rows others (sa ∙ sym sb)
              (ap count pa ∙ hp ∙ sym hq ∙ ap count (sym pb)) ha hb hash) [
                | inr collision ↦ inr collision
                | inl row ↦ inl (sym pa ∙ ap (λ r. r.previous_hash) row ∙ pb, λ i. row i ∷ rest i)
              ]
      ]

  -- A checkpoint that is anchored in two logs pins down their first rows, as many as it counts, unless
  -- among these there are a row of the one and a row of the other whose texts differ but have one digest.
  -- Every digest has 64 characters.
  pub anchored-pins :
      (trusted : AuditCheckpoint) (identity : String) (table other : AuditTable)
      → verify_anchored_checkpoint digest (some table) trusted identity ≡ true
      → verify_anchored_checkpoint digest (some other) trusted identity ≡ true
      → (first trusted.sequence table.rows ≡ first trusted.sequence other.rows)
        ⊎ Collision digest (first trusted.sequence table.rows) (first trusted.sequence other.rows)
  anchored-pins trusted identity table other h k =
      let (_, a) = verify-IsAnchored digest table.rows table.last_seq trusted identity h in
      let (_, b) = verify-IsAnchored digest other.rows other.last_seq trusted identity k in
      let n = trusted.sequence in
      elim (same_chain 0 genesis genesis (first n table.rows) (first n other.rows) refl refl
        (first-IsChain digest 0 genesis n table.rows a.chained)
        (first-IsChain digest 0 genesis n other.rows b.chained)
        (length-first n table.rows a.counted ∙ sym (length-first n other.rows b.counted))
        (a.hashed ∙ sym b.hashed)) [ inl (_, same) ↦ inl same | inr collision ↦ inr collision ]
