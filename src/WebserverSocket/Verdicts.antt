-- ===== src/WebserverSocket/Verdicts.antt =====
-- When the server blocks a client: in whatever order the lookups answer.
use mathlib.Core.List.{
  Mem, Perm, mem-cons_self, mem-cons_of_mem, eq-or-mem_of_mem-cons, not-mem-nil,
}
use mathlib.Core.List.Perm
use mathlib.Core.HLevel.{⊥_prop}
use mathlib.Core.Logic.{∥∥₁_elim}
use botex.Prelude.{
  ◌≡◌, ◌↔◌, ◌⊎◌, inl, inr, refl, sym, ◌∙◌, Option, none, some, Bool, true, false, List, [], ◌∷◌,
  map,
}
use botex.Data.{Bytes}
use botex.MapWindow.{Clock}
use botex.Store.{KvStore}
use botex.Block.{Block, Registry, Codec}
use botex.WebserverSocket.Cipher.{Aes}
use botex.WebserverSocket.Cookie.{Texts, Config, has_valid_captcha_cookie}
use botex.WebserverSocket.Decide.{
  Answer, passes, blocks, decision_of, lookup_ip, client_ips, answer_with, decide,
}

Answer-cases : (a : Answer) → (a ≡ passes) ⊎ (a ≡ blocks)
Answer-cases passes = inl refl
Answer-cases blocks = inr refl

decision_of-Mem : (answers : List Answer) → decision_of answers ≡ blocks → Mem blocks answers
unfolding decision_of
decision_of-Mem [] h = absurd (let k : ◌≡◌ {A = Answer} passes blocks = h in cc)
decision_of-Mem (passes ∷ answers) h = mem-cons_of_mem _ (decision_of-Mem answers h)
decision_of-Mem (blocks ∷ answers) h = mem-cons_self

Mem-decision_of : (answers : List Answer) → Mem blocks answers → decision_of answers ≡ blocks
unfolding decision_of
Mem-decision_of [] m = absurd (not-mem-nil m)
Mem-decision_of (passes ∷ answers) m = elim (Answer-cases (decision_of answers)) [
  | inr e ↦ e
  | inl e ↦ absurd (
      ∥∥₁_elim (eq-or-mem_of_mem-cons m) ⊥_prop (λ found. elim found [
        | inl f ↦ let k : ◌≡◌ {A = Answer} blocks passes = f in cc
        | inr n ↦ let k : ◌≡◌ {A = Answer} passes blocks = sym e ∙ Mem-decision_of answers n in cc
      ]))
]
Mem-decision_of (blocks ∷ answers) m = refl

answer_with-blocks :
    (answer : Answer) (valid : Option Bool)
    → (answer_with answer valid ≡ some blocks) ↔ ((answer ≡ blocks) × (valid ≡ some false))
unfolding answer_with
answer_with-blocks passes valid = (λ h. absurd (cc), λ h. absurd (cc))
answer_with-blocks blocks none = (λ h. absurd (cc), λ h. absurd (cc))
answer_with-blocks blocks (some true) = (λ h. absurd (cc), λ h. absurd (cc))
answer_with-blocks blocks (some false) = (λ _. (refl, refl), λ _. refl)

answer_with-none :
    (answer : Answer) (valid : Option Bool)
    → (answer_with answer valid ≡ none) ↔ ((answer ≡ blocks) × (valid ≡ none))
unfolding answer_with
answer_with-none passes valid = (λ h. absurd (cc), λ h. absurd (cc))
answer_with-none blocks none = (λ _. (refl, refl), λ _. refl)
answer_with-none blocks (some true) = (λ h. absurd (cc), λ h. absurd (cc))
answer_with-none blocks (some false) = (λ h. absurd (cc), λ h. absurd (cc))

-- The order in which the answers arrive does not matter.
decision_of-Perm :
    (got sent : List Answer) → Perm got sent → (decision_of got ≡ blocks) ↔ Mem blocks sent
decision_of-Perm got sent p = (
  λ h. (Perm.mem_iff p).0 (decision_of-Mem got h),
  λ m. Mem-decision_of got ((Perm.mem_iff p).1 m),
)

module _ {S A F C N P : Type 0} ⦃kv : KvStore S⦄ (registry : Registry A N) (codec : Codec A F C N P)
    (contains : N → Bytes → Bool) (aes : Aes) (texts : Texts) (config : Config)
    (private_blocks : List N) where
  -- decide: whatever the order in which the lookups of the client's addresses answer, the client is
  -- blocked just if one of the addresses is blocked and no cookie is valid; it gets no answer just if
  -- one is blocked and the test of the cookies panics.
  pub decide_lem :
      (arrive : List Answer → List Answer) (clock : Clock) (b : Block S) (ip xff cookies : Bytes)
      → ((answers : List Answer) → Perm (arrive answers) answers)
      → let ips = client_ips contains config private_blocks texts ip xff in
        let valid = has_valid_captcha_cookie aes texts config clock cookies ips in
        let answer =
          decide registry codec contains aes texts config private_blocks arrive clock b ip xff
            cookies in
        ((answer ≡ some blocks)
          ↔ (Mem blocks (map (lookup_ip registry codec b) ips) × (valid ≡ some false)))
        × ((answer ≡ none) ↔ (Mem blocks (map (lookup_ip registry codec b) ips) × (valid ≡ none)))
  unfolding decide
  decide_lem arrive clock b ip xff cookies shuffles =
      let ips = client_ips contains config private_blocks texts ip xff in
      let valid = has_valid_captcha_cookie aes texts config clock cookies ips in
      let answers = map (lookup_ip registry codec b) ips in
      let found = decision_of-Perm (arrive answers) answers (shuffles answers) in
      let blocked = answer_with-blocks (decision_of (arrive answers)) valid in
      let silent = answer_with-none (decision_of (arrive answers)) valid in
      (
        (λ h. (found.0 (blocked.0 h).0, (blocked.0 h).1), λ h. blocked.1 (found.1 h.0, h.1)),
        (λ h. (found.0 (silent.0 h).0, (silent.0 h).1), λ h. silent.1 (found.1 h.0, h.1)),
      )
