-- ===== src/Gateway/Sets.antt =====
-- Membership after each operation of the registry on its dictionaries.
use marketplace_invite_only.Common.{
  ◌≡◌, refl, ℕ, Bool, true, false, not, ◌&&◌, ◌||◌, List, [], ◌∷◌, ◌++◌, ◌==◌, Option-cases, inl,
  inr, arith,
}
use marketplace_invite_only.Common.Tables.{delete_where, find-update, find-remove, find-append}
use marketplace_invite_only.Gateway.Registry.{
  Channel, Topic, DeliveryRole, has, add, discard, is_empty, find_channel, find_topic,
  subscribers_of, join, drop, delivery_internal_subscribers, delivery_customer_subscribers, add_to,
  leave_topic, empty_topic, join_delivery, drop_delivery, drop_each, drop_each_delivery,
}

has-append : (x y : ℕ) (s : List ℕ) → has x (s ++ y ∷ []) ≡ (has x s || x == y)
unfolding has
has-append x y [] = ground arith
has-append x y (z ∷ s) = ground (arith, has-append x y s)

pub has-add : (x y : ℕ) (s : List ℕ) → has x (add y s) ≡ (x == y || has x s)
has-add x y s = ground (arith, has-append x y s)

pub has-discard : (x y : ℕ) (s : List ℕ) → has x (discard y s) ≡ (not (x == y) && has x s)
unfolding has delete_where
has-discard x y [] = ground arith
has-discard x y (z ∷ s) = ground (arith, has-discard x y s)

has-is_empty : (x : ℕ) (s : List ℕ) → is_empty s ≡ true → has x s ≡ false
unfolding has
has-is_empty x [] h = refl
has-is_empty x (y ∷ s) h = absurd (ground arith)

-- One connection joins one channel.
pub has-join :
    (c v d w : ℕ) (subs : List Channel)
    → has c (subscribers_of v (join d w subs))
      ≡ ((c == d && v == w) || has c (subscribers_of v subs))
unfolding subscribers_of join has
has-join c v d w subs = elim (Option-cases (find_channel w subs)) [
  | inl e ↦
      let fresh : Channel = record { conversation_id = w; subscribers = d ∷ [] } in
      ground (arith, e, find-append (λ (s : Channel). s.conversation_id) v subs fresh)
  | inr (s, e) ↦ ground (
    arith,
    e,
    find-update (λ (s : Channel). s.conversation_id) v w
        (λ s. record s { subscribers = add d s.subscribers }) subs (λ s. refl),
    has-add c d s.subscribers,
  )
]

-- One connection leaves one channel; an entry that is deleted had no one else in it.
pub has-drop :
    (c v d w : ℕ) (subs : List Channel)
    → has c (subscribers_of v (drop d w subs))
      ≡ (not (c == d && v == w) && has c (subscribers_of v subs))
unfolding subscribers_of drop has
has-drop c v d w subs = elim (Option-cases (find_channel w subs)) [
  | inl e ↦ ground (arith, e)
  | inr (s, e) ↦ ground (
    arith,
    e,
    find-update (λ (s : Channel). s.conversation_id) v w
        (λ s. record s { subscribers = discard d s.subscribers }) subs (λ s. refl),
    find-remove (λ (s : Channel). s.conversation_id) v w subs,
    has-discard c d s.subscribers,
    has-is_empty c (discard d s.subscribers),
  )
]

-- whether a connection is in a bucket of a topic
abbrev pub in_bucket : DeliveryRole → ℕ → ℕ → List Topic → Bool
in_bucket DeliveryRole.internal c v ts = has c (delivery_internal_subscribers v ts)
in_bucket DeliveryRole.customer c v ts = has c (delivery_customer_subscribers v ts)

abbrev pub is_bucket : DeliveryRole → DeliveryRole → Bool
is_bucket DeliveryRole.internal DeliveryRole.internal = true
is_bucket DeliveryRole.customer DeliveryRole.customer = true
is_bucket _ _ = false

add_to-order_id :
    (role : DeliveryRole) (d : ℕ) (t : Topic) → (add_to role d t).order_id ≡ t.order_id
add_to-order_id DeliveryRole.internal d t = refl
add_to-order_id DeliveryRole.customer d t = refl

pub has-join_delivery :
    (b role : DeliveryRole) (c v d w : ℕ) (ts : List Topic)
    → in_bucket b c v (join_delivery d w role ts)
      ≡ ((is_bucket b role && (c == d && v == w)) || in_bucket b c v ts)
unfolding delivery_internal_subscribers delivery_customer_subscribers join_delivery has
has-join_delivery b role c v d w ts = elim (Option-cases (find_topic w ts)) [
  | inl e ↦
      ground
        (arith, e, find-append (λ (t : Topic). t.order_id) v ts (add_to role d (empty_topic w)))
  | inr (t, e) ↦ ground (
    arith,
    e,
    find-update (λ (t : Topic). t.order_id) v w (add_to role d) ts (add_to-order_id role d),
    has-add c d t.internal,
    has-add c d t.customer,
  )
]

pub has-drop_delivery :
    (b : DeliveryRole) (c v d w : ℕ) (ts : List Topic)
    → in_bucket b c v (drop_delivery d w ts) ≡ (not (c == d && v == w) && in_bucket b c v ts)
unfolding delivery_internal_subscribers delivery_customer_subscribers drop_delivery has
has-drop_delivery b c v d w ts = elim (Option-cases (find_topic w ts)) [
  | inl e ↦ ground (arith, e)
  | inr (t, e) ↦ ground (
    arith,
    e,
    find-update (λ (t : Topic). t.order_id) v w (leave_topic d) ts (λ t. refl),
    find-remove (λ (t : Topic). t.order_id) v w ts,
    has-discard c d t.internal,
    has-discard c d t.customer,
    has-is_empty c (discard d t.internal),
    has-is_empty c (discard d t.customer),
  )
]

-- What is left after the loops of `disconnect_all`.
pub has-drop_each :
    (c v d : ℕ) (vs : List ℕ) (subs : List Channel)
    → has c (subscribers_of v (drop_each d vs subs))
      ≡ (not (c == d && has v vs) && has c (subscribers_of v subs))
unfolding drop_each has
has-drop_each c v d [] subs = ground arith
has-drop_each c v d (w ∷ vs) subs =
    ground (arith, has-drop_each c v d vs (drop d w subs), has-drop c v d w subs)

pub has-drop_each_delivery :
    (b : DeliveryRole) (c v d : ℕ) (os : List ℕ) (ts : List Topic)
    → in_bucket b c v (drop_each_delivery d os ts)
      ≡ (not (c == d && has v os) && in_bucket b c v ts)
unfolding drop_each_delivery has
has-drop_each_delivery b c v d [] ts = ground arith
has-drop_each_delivery b c v d (w ∷ os) ts = ground (
  arith,
  has-drop_each_delivery b c v d os (drop_delivery d w ts),
  has-drop_delivery b c v d w ts,
)
