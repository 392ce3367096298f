-- ===== src/Messaging/Retention.antt =====
-- How long a message is kept, whatever an admin sets.
use marketplace_invite_only.Common.{
  ◌≡◌, refl, ℕ, ◌-◌, ◌≤◌, Bool, false, Option, none, some, List, [], ◌∷◌, leb, Option-cases, inl,
  inr, ◌⊎◌, arith,
}
use marketplace_invite_only.Common.Tables.{All, select, delete_where}
use marketplace_invite_only.Models.{User, Message, PlatformSettings, Db}
use marketplace_invite_only.Session.{request, commit_or_rollback, ◌>>=◌}
use marketplace_invite_only.Orders.Retention.{days, add_default_settings}
use marketplace_invite_only.Messaging.Messages.{
  get_settings, update_message_retention_days, is_old, purge_old_messages,
}

-- The days of retention that are in force.
abbrev pub retention_days : Option PlatformSettings → ℕ
retention_days none = 90
retention_days (some ps) = ps.message_retention_days

abbrev pub is_recent : ℕ → Message → Bool
is_recent now m = leb (now - days 7) m.sent_at

after_update :
    (caller : User) (n now : ℕ) (db : Db)
    → ((request (update_message_retention_days caller n now) db).1.conversation_messages
        ≡ db.conversation_messages)
      × ((retention_days (request (update_message_retention_days caller n now) db).1.settings
            ≡ retention_days db.settings)
          ⊎ (7
              ≤ retention_days
                  (request (update_message_retention_days caller n now) db).1.settings))
unfolding request commit_or_rollback update_message_retention_days get_settings add_default_settings
    ◌>>=◌
after_update caller n now db = elim (Option-cases db.settings) [
  | inl e ↦ ground (arith, e)
  | inr (ps, e) ↦ ground (arith, e)
]

kept :
    (n now : ℕ) (ms : List Message)
    → 7 ≤ n
    → (select (is_recent now) (delete_where (is_old n now) ms) ≡ select (is_recent now) ms)
      × All (λ m. is_old n now m ≡ false) (delete_where (is_old n now) ms)
unfolding select delete_where
kept n now [] h = (refl, tt)
kept n now (m ∷ ms) h = ground (arith, kept n now ms h)

after_purge :
    (now : ℕ) (db : Db)
    → (purge_old_messages now db).1.conversation_messages
      ≡ delete_where (is_old (retention_days db.settings) now) db.conversation_messages
unfolding purge_old_messages get_settings add_default_settings ◌>>=◌
after_purge now db = elim (Option-cases db.settings) [ inl e ↦ rw e refl | inr (ps, e) ↦ rw e refl ]

-- A purge after a request that sets any time of retention, refused or not, leaves every message of
-- the last seven days and no message older than the retention then in force; this holds where the
-- retention was at least seven days before the request, and then it is still so.
pub update_message_retention_days-purge_old_messages :
    (caller : User) (n now later : ℕ) (db : Db)
    → 7 ≤ retention_days db.settings
    → let set = (request (update_message_retention_days caller n now) db).1 in
      let after = (purge_old_messages later set).1.conversation_messages in
      (7 ≤ retention_days set.settings)
      × ((select (is_recent later) after ≡ select (is_recent later) db.conversation_messages)
          × All (λ m. is_old (retention_days set.settings) later m ≡ false) after)
update_message_retention_days-purge_old_messages caller n now later db h =
    let set = (request (update_message_retention_days caller n now) db).1 in
    let bound : 7 ≤ retention_days set.settings = elim (after_update caller n now db).1 [
      | inl e ↦ omega arith
      | inr e ↦ e
    ] in
    (
      bound,
      rw (after_purge later set, (after_update caller n now db).0)
          (kept (retention_days set.settings) later db.conversation_messages bound),
    )
