-- ===== src/MatchTable/Tests.antt =====
-- The table at concrete registrations.
use arbitro.Subject.Tokens.{NoGap, cons_head, tokens}
use arbitro.SubjectTrie.{
  budget, find_literal, find_matches, insert_loop, insert_pattern, literal_child, match_loop,
  push_gt, push_sub, star_child,
}
use arbitro.SubjectTrie.Links.{never_both}
use arbitro.MatchTable.Binding.{has_byte, is_pattern}
use arbitro.MatchTable.Naming.{Truthful}
use arbitro.MatchTable.Resolving.{Fits, token_total}
use arbitro.MatchTable.Removing.{remove_subscription-recipients}
use arbitro.Common.{
  All, List, [], ap, arith, false, inl, inr, length, lookup, not, put, refl, sym, true≢false, ℕ,
  ◌&&◌, ◌==◌, ◌∙◌, ◌∷◌, ◌≡◌, ◌⊎◌,
}
use arbitro.Subject.{Bytes, bytes_eq, next_token}
use arbitro.MatchTable.{
  MatchEntry, MatchTable, add_catch_all, add_entry, add_exact, add_pattern, bucket, has_entry,
  keep_subject, lookup_verified, new_table, push_new, push_unseen, remove_subscription,
  resolve_patterns_readonly, same_entry,
}
use arbitro.MatchTable.Delivery.{add_filter, add_filters, recipients, register, resolve_cached}
use arbitro.MatchTable.Registering.{Consistent, NoClash, new_table-Consistent}
use arbitro.MatchTable.Routing.{recipients-wanted, register_all, register_all-named, wanted}

abbrev a_b : Bytes
a_b = 97 ∷ 46 ∷ 98 ∷ []

abbrev a_star : Bytes
a_star = 97 ∷ 46 ∷ 42 ∷ []

abbrev only_c : Bytes
only_c = 99 ∷ []

abbrev entry : ℕ → MatchEntry
entry n = record {
  consumer_id = n;
  queue_id = n;
  subscription_id = n;
  connection_id = 0;
  binding_idx = 0;
}

abbrev subscriptions : List (MatchEntry × List Bytes)
subscriptions =
    (entry 1, a_b ∷ []) ∷ (entry 2, a_star ∷ []) ∷ (entry 3, []) ∷ (entry 4, only_c ∷ []) ∷ []

-- A hash that tells the known subjects apart.
abbrev hash : Bytes → ℕ
hash = length

abbrev Known : Bytes → Type 0
Known s = (s ≡ a_b) ⊎ (s ≡ only_c)

abbrev table : MatchTable
table = register_all hash new_table subscriptions

named_three : (recipients hash table [] a_b).0 ≡ entry 1 ∷ entry 3 ∷ entry 2 ∷ []
unfolding recipients register_all register add_filters add_filter is_pattern has_byte add_exact
    add_catch_all has_entry add_pattern push_new resolve_cached lookup resolve_patterns_readonly
    find_matches match_loop budget put add_entry bucket keep_subject lookup_verified push_unseen
    same_entry bytes_eq next_token find_literal insert_loop insert_pattern literal_child push_gt
    push_sub star_child
named_three = refl

Known-NoClash : NoClash hash Known
Known-NoClash a b (inl p) (inl q) e = p ∙ sym q
Known-NoClash a b (inr p) (inr q) e = p ∙ sym q
Known-NoClash a b (inl p) (inr q) e = absurd (omega (arith, e, ap length p, ap length q))
Known-NoClash a b (inr p) (inl q) e = absurd (omega (arith, e, ap length p, ap length q))

literals_listed : All (λ r. All (λ f. is_pattern f ≡ false → Known f) r.1) subscriptions
unfolding is_pattern has_byte
literals_listed =
    (((λ e. inl refl), tt), (((λ e. absurd (true≢false e)), tt), (tt, (((λ e. inr refl), tt), tt))))

table-Fits : Fits table.patterns
unfolding register_all register add_filters add_filter is_pattern has_byte add_exact add_catch_all
    has_entry add_pattern bucket lookup token_total tokens cons_head
table-Fits = (omega arith, omega arith, (((λ e. absurd (cc)), ((λ e. absurd (cc)), tt)), tt))

a_b-NoGap : NoGap a_b
unfolding tokens cons_head
a_b-NoGap = ((λ e. absurd (cc)), ((λ e. absurd (cc)), tt))

empty-Truthful : (t : MatchTable) → Truthful hash t [] a_b
unfolding lookup
empty-Truthful t r e = absurd (never_both e refl)

recipients-wanted_example :
    has_entry (entry 2) (recipients hash table [] a_b).0 ≡ wanted (entry 2) a_b subscriptions
recipients-wanted_example =
    recipients-wanted hash Known Known-NoClash subscriptions [] a_b (entry 2) literals_listed
      table-Fits (inl refl) a_b-NoGap (empty-Truthful table)

table-Consistent : Consistent hash Known table
table-Consistent =
    (register_all-named hash Known Known-NoClash new_table subscriptions a_b (entry 1)
      (new_table-Consistent hash Known) literals_listed (inl refl)).0

remove_subscription-recipients_example :
    (has_entry (entry 2) (recipients hash (remove_subscription table 2) [] a_b).0
      ≡ (has_entry (entry 2) (recipients hash table [] a_b).0 && not (2 == 2)))
    × Consistent hash Known (remove_subscription table 2)
remove_subscription-recipients_example =
    remove_subscription-recipients hash Known table 2 [] [] a_b (entry 2) Known-NoClash
      table-Consistent table-Fits (inl refl) a_b-NoGap (empty-Truthful table)
      (empty-Truthful (remove_subscription table 2))

-- Two subjects with one hash: the second one's subscriber stands in the bucket of the first. It gets
-- the first one's messages, and none of its own.
abbrev clashing : MatchTable
clashing = add_exact (add_exact new_table 7 a_b (entry 1)) 7 only_c (entry 2)

clash_misdelivers :
    (lookup_verified clashing 7 a_b ≡ (entry 1 ∷ entry 2 ∷ [], []))
    × (lookup_verified clashing 7 only_c ≡ ([], []))
unfolding add_exact has_entry add_entry put bucket lookup keep_subject lookup_verified bytes_eq
    same_entry
clash_misdelivers = (refl, refl)
