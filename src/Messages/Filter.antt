-- ===== src/Messages/Filter.antt =====
-- Which messages the filter lets through.
use air_whatsbot.Common.{
  ℕ, ◌≡◌, ◌↔◌, refl, subst, sym, String, Bool, true, false, Option, none, some, List, string_eq,
  if◌then◌else◌,
}
use air_whatsbot.Messages.{Event, Content}
use air_whatsbot.Messages.Rules.{
  should_ignore_message, should_ignore_content, in_ignore_window, is_status, is_status_text, is_own,
  is_service, is_history, has_metadata, is_too_old,
}

-- No rule holds of the message.
pub record IsClean (connected_at now later : ℕ) (e : Event) (c : Content) : Type 0 where
  pub settled : in_ignore_window connected_at now ≡ false
  pub no_status : is_status e ≡ false
  pub no_status_text : is_status_text e ≡ false
  pub from_other : is_own e ≡ false
  pub no_service : is_service e ≡ false
  pub no_history : is_history e ≡ false
  pub no_metadata : has_metadata c.extended ≡ false
  pub recent : is_too_old later e ≡ false

-- One rule of a chain
rule_passes :
    (b : Bool) (x y : (Bool × String) × List String)
    → x.0.0 ≡ true
    → (if b then x else y).0.0 ≡ false
    → (b ≡ false) × (y.0.0 ≡ false)
rule_passes true x y t h = absurd cc
rule_passes false x y t h = (refl, h)

content-passes :
    (connected_at now later : ℕ) (e : Event) (c : Content)
    → (should_ignore_content connected_at now later e (some c)).0.0 ≡ false
    → IsClean connected_at now later e c
content-passes connected_at now later e c h =
    let (a, h1) = rule_passes (in_ignore_window connected_at now) _ _ refl h in
    let (b, h2) = rule_passes (is_status e) _ _ refl h1 in
    let (d, h3) = rule_passes (is_status_text e) _ _ refl h2 in
    let (f, h4) = rule_passes (is_own e) _ _ refl h3 in
    let (g, h5) = rule_passes (is_service e) _ _ refl h4 in
    let (i, h6) = rule_passes (is_history e) _ _ refl h5 in
    let (j, h7) = rule_passes (has_metadata c.extended) _ _ refl h6 in
    let (k, h8) = rule_passes (is_too_old later e) _ _ refl h7 in
    record {
      settled = a;
      no_status = b;
      no_status_text = d;
      from_other = f;
      no_service = g;
      no_history = i;
      no_metadata = j;
      recent = k;
    }

rule_skipped :
    (b : Bool) (x y : (Bool × String) × List String)
    → b ≡ false
    → y.0.0 ≡ false
    → (if b then x else y).0.0 ≡ false
rule_skipped true x y e h = absurd cc
rule_skipped false x y e h = h

passes-content :
    (connected_at now later : ℕ) (e : Event) (c : Content)
    → IsClean connected_at now later e c
    → (should_ignore_content connected_at now later e (some c)).0.0 ≡ false
passes-content connected_at now later e c p =
    rule_skipped (in_ignore_window connected_at now) _ _ p.settled (
      rule_skipped (is_status e) _ _ p.no_status (
        rule_skipped (is_status_text e) _ _ p.no_status_text (
          rule_skipped (is_own e) _ _ p.from_other (
            rule_skipped (is_service e) _ _ p.no_service (
              rule_skipped (is_history e) _ _ p.no_history (
                rule_skipped (has_metadata c.extended) _ _ p.no_metadata
                  (rule_skipped (is_too_old later e) _ _ p.recent refl)))))))

-- A message is let through exactly if it has a content and none of the eight rules holds of it.
should_ignore_message_lem :
    (connected_at now later : ℕ) (e : Event)
    → ((should_ignore_message connected_at now later (some e)).0.0 ≡ false)
      ↔ ((c : Content) × (e.message ≡ some c) × IsClean connected_at now later e c)
unfolding should_ignore_message
should_ignore_message_lem connected_at now later e = (lets_through e.message refl, rejects_not)
  where
    lets_through :
        (m : Option Content)
        → e.message ≡ m
        → (should_ignore_content connected_at now later e m).0.0 ≡ false
        → (c : Content) × (e.message ≡ some c) × IsClean connected_at now later e c
    lets_through none s h = absurd cc
    lets_through (some c) s h = (c, s, content-passes connected_at now later e c h)

    rejects_not :
        (c : Content) × (e.message ≡ some c) × IsClean connected_at now later e c
        → (should_ignore_content connected_at now later e e.message).0.0 ≡ false
    rejects_not (c, s, p) =
        subst (λ m. (should_ignore_content connected_at now later e m).0.0 ≡ false) (sym s)
          (passes-content connected_at now later e c p)
