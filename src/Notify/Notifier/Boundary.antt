-- ===== src/Notify/Notifier/Boundary.antt =====
-- NotifyBlock as a whole, on a database that answers: the messages that a block gives, in their order.
use pocket_settlement_monito.Prelude.{
  ◌+◌, ◌-◌, ◌≡◌, refl, sym, ap, subst, ◌∙◌, inl, inr, Bool, true, false, not, ◌&&◌, List, [], ◌∷◌,
  Bool-cases, if◌then◌else◌,
}
use pocket_settlement_monito.Prelude.Eq.{◌=?◌, nat_eq, eq_of_=?}
use pocket_settlement_monito.Prelude.Exec.{Exec, ok}
use pocket_settlement_monito.Store.Models.{Time}
use pocket_settlement_monito.Store.Tables.{Tables}
use pocket_settlement_monito.Store.Db.{Db, Fails, Implements, statement-Implements}
use pocket_settlement_monito.Store.Period.{order_rows, settlements_in, query_settlements_for_period}
use pocket_settlement_monito.Store.Summaries.{
  hourly_network_of, daily_network_of, get_hourly_summary_network, get_daily_summary_network,
}
use pocket_settlement_monito.Processor.Reporter.{day, hour_start, day_start}
use pocket_settlement_monito.Notify.{NotificationsConfig}
use pocket_settlement_monito.Notify.Embeds.{build_hourly_summary_embed, build_daily_summary_embed}
use pocket_settlement_monito.Notify.Breakdown.{top_suppliers, build_supplier_breakdown}
use pocket_settlement_monito.Notify.Notifier.{
  Notification, Notifier, enqueue, hour_found, day_found, to_webhook, send_hourly, send_daily,
  check_hour, check_day,
}
use pocket_settlement_monito.Notify.Notifier.Queue.{
  outbox, enqueue_frame, offer, offer-nil, outbox-enqueue,
}

-- A read on a database that answers gives its value, changes no row and leaves a database that answers.
record Answered {A : Type 0} (m : Exec Db A) (a : A) (db : Db) : Type 0 where
  pub value : (m db).0 ≡ ok a
  pub tables : (m db).1.tables ≡ db.tables
  pub answers : Fails (m db).1 → ⊥

answered :
    {A : Type 0} (m : Exec Db A) (f : Tables → A)
    → Implements m (λ t. (f t, t))
    → (db : Db) → (Fails db → ⊥)
    → Answered m (f db.tables) db
answered m f h db n = elim (h.at db) [
  | inl (_, fails) ↦ absurd (n fails)
  | inr (e, t, back) ↦ record { value = e; tables = t; answers = λ x. n (back x) }
]

module _ (cfg : NotificationsConfig) (ts : Time) (n : Notifier) where
  -- The block lies in another hour than the one before.
  abbrev pub hour_over : Bool
  hour_over = not (n.last_hourly_summary =? 0) && not (hour_start ts =? n.last_hourly_summary)

  -- The summary of the hour that is over, from its row.
  abbrev pub hourly_messages : List Notification
  hourly_messages =
      if hour_over && cfg.hourly_summary
      then to_webhook cfg
          (build_hourly_summary_embed (hour_found n.last_hourly_summary n.db.tables)
            (hourly_network_of n.last_hourly_summary n.db.tables))
          "hourly_summary"
        ∷ []
      else []

-- The summary of the day `date` that is over, beside the day before it and with its settlements' suppliers.
module _ (cfg : NotificationsConfig) (ts : Time) where
  abbrev pub day_over : Time → Bool
  day_over date = not (date =? 0) && not (day_start ts =? date)

  abbrev pub daily_due : Time → Tables → List Notification
  daily_due date t =
      if day_over date && cfg.daily_summary
      then to_webhook cfg
          (build_daily_summary_embed (day_found date t) (daily_network_of date t)
            (daily_network_of (date - day) t)
            (top_suppliers (order_rows (settlements_in date (date + day) t))))
          "daily_summary"
        ∷ []
      else []

  abbrev pub daily_messages : Notifier → List Notification
  daily_messages n = daily_due n.last_daily_summary n.db.tables

-- The state `m` after a check that sends `msgs`, from the state `n`.
pub record Checked (n : Notifier) (msgs : List Notification) (hourly daily : Time) (m : Notifier)
    : Type 0 where
  pub sent : outbox m ≡ offer msgs (outbox n)
  pub hourly_tracker : m.last_hourly_summary ≡ hourly
  pub daily_tracker : m.last_daily_summary ≡ daily
  pub tables : m.db.tables ≡ n.db.tables
  pub answers : Fails m.db → ⊥

nothing_sent :
    (n : Notifier) → (Fails n.db → ⊥) → Checked n [] n.last_hourly_summary n.last_daily_summary n
nothing_sent n h = record {
  sent = sym (offer-nil n);
  hourly_tracker = refl;
  daily_tracker = refl;
  tables = refl;
  answers = h;
}

-- The trackers are set afterwards.
module _ {n m : Notifier} {msgs : List Notification} {h d : Time} (c : Checked n msgs h d m) where
  hour_set : (hourly : Time) → Checked n msgs hourly d (record m { last_hourly_summary = hourly })
  hour_set hourly = record {
    sent = c.sent;
    hourly_tracker = refl;
    daily_tracker = c.daily_tracker;
    tables = c.tables;
    answers = c.answers;
  }

  day_set : (daily : Time) → Checked n msgs h daily (record m { last_daily_summary = daily })
  day_set daily = record {
    sent = c.sent;
    hourly_tracker = c.hourly_tracker;
    daily_tracker = refl;
    tables = c.tables;
    answers = c.answers;
  }

-- One message, after reads that left the database at `db`.
one_sent :
    (n : Notifier) (msg : Notification) (db : Db)
    → db.tables ≡ n.db.tables
    → (Fails db → ⊥)
    → Checked n
        (msg ∷ [])
        n.last_hourly_summary
        n.last_daily_summary
        (enqueue msg (record n { db = db }))
one_sent n msg db t h =
    let after : Notifier = record n { db = db } in
    record {
      sent = outbox-enqueue msg after;
      hourly_tracker =
          enqueue_frame (λ m. m.last_hourly_summary) (λ _ _. refl) (λ _ _. refl) msg after;
      daily_tracker =
          enqueue_frame (λ m. m.last_daily_summary) (λ _ _. refl) (λ _ _. refl) msg after;
      tables = ap (λ d. d.tables) (same_db msg after) ∙ t;
      answers = λ f. h (subst Fails (same_db msg after) f);
    }
  where
    same_db : (msg : Notification) (m : Notifier) → (enqueue msg m).db ≡ m.db
    same_db = enqueue_frame (λ m. m.db) (λ _ _. refl) (λ _ _. refl)

module _ (cfg : NotificationsConfig) (ts : Time) (n : Notifier) (ok_db : Fails n.db → ⊥) where
  send_hourly-Checked :
      Checked n
        (to_webhook cfg
            (build_hourly_summary_embed
              (hour_found n.last_hourly_summary n.db.tables)
              (hourly_network_of n.last_hourly_summary n.db.tables))
            "hourly_summary"
          ∷ [])
        n.last_hourly_summary
        n.last_daily_summary
        (send_hourly cfg n)
  unfolding get_hourly_summary_network
  send_hourly-Checked =
      let r =
        answered (get_hourly_summary_network n.last_hourly_summary)
          (hourly_network_of n.last_hourly_summary) (statement-Implements _) n.db ok_db in
      rw r.value (one_sent n _ _ r.tables r.answers)

  send_daily-Checked :
      let date = n.last_daily_summary in
      Checked n
        (to_webhook cfg
            (build_daily_summary_embed
              (day_found date n.db.tables)
              (daily_network_of date n.db.tables)
              (daily_network_of (date - day) n.db.tables)
              (top_suppliers (order_rows (settlements_in date (date + day) n.db.tables))))
            "daily_summary"
          ∷ [])
        n.last_hourly_summary
        n.last_daily_summary
        (send_daily cfg n)
  unfolding get_daily_summary_network build_supplier_breakdown query_settlements_for_period
  send_daily-Checked =
      let date = n.last_daily_summary in
      let r =
        answered (get_daily_summary_network date) (daily_network_of date) (statement-Implements _)
          n.db ok_db in
      let q =
        answered (get_daily_summary_network (date - day)) (daily_network_of (date - day))
          (statement-Implements _) (get_daily_summary_network date n.db).1 r.answers in
      let b =
        answered (query_settlements_for_period date (date + day))
          (λ t. order_rows (settlements_in date (date + day) t)) (statement-Implements _)
          (get_daily_summary_network (date - day) (get_daily_summary_network date n.db).1).1
          q.answers in
      subst (λ msg. Checked n (msg ∷ []) n.last_hourly_summary date (send_daily cfg n))
        (λ i.
          to_webhook cfg
            (build_daily_summary_embed (day_found date n.db.tables)
              (daily_network_of date n.db.tables) (daily_network_of (date - day) (r.tables i))
              (top_suppliers
                (order_rows (settlements_in date (date + day) ((q.tables ∙ r.tables) i)))))
            "daily_summary")
        (rw (r.value, q.value, b.value) (one_sent n _ _ (b.tables ∙ q.tables ∙ r.tables) b.answers))

  choose_hour :
      (on : Bool)
      → Checked n
          (if on
            then to_webhook cfg
                (build_hourly_summary_embed
                  (hour_found n.last_hourly_summary n.db.tables)
                  (hourly_network_of n.last_hourly_summary n.db.tables))
                "hourly_summary"
              ∷ []
            else [])
          (hour_start ts)
          n.last_daily_summary
          (record (if on then send_hourly cfg n else n) { last_hourly_summary = hour_start ts })
  choose_hour true = hour_set send_hourly-Checked (hour_start ts)
  choose_hour false = hour_set (nothing_sent n ok_db) (hour_start ts)

  choose_day :
      (on : Bool)
      → Checked n
          (if on
            then to_webhook cfg
                (build_daily_summary_embed
                  (day_found n.last_daily_summary n.db.tables)
                  (daily_network_of n.last_daily_summary n.db.tables)
                  (daily_network_of (n.last_daily_summary - day) n.db.tables)
                  (top_suppliers (
                    order_rows (
                      settlements_in n.last_daily_summary
                        (n.last_daily_summary + day)
                        n.db.tables))))
                "daily_summary"
              ∷ []
            else [])
          n.last_hourly_summary
          (day_start ts)
          (record (if on then send_daily cfg n else n) { last_daily_summary = day_start ts })
  choose_day true = day_set send_daily-Checked (day_start ts)
  choose_day false = day_set (nothing_sent n ok_db) (day_start ts)

  pub check_hour-Checked :
      Checked n
        (hourly_messages cfg ts n)
        (hour_start ts)
        n.last_daily_summary
        (check_hour cfg ts n)
  unfolding check_hour
  check_hour-Checked = elim (Bool-cases (n.last_hourly_summary =? 0)) [
    | inl first ↦ rw first (hour_set (nothing_sent n ok_db) (hour_start ts))
    | inr later ↦ elim (Bool-cases (hour_start ts =? n.last_hourly_summary)) [
      | inl same ↦
          rw (later, same)
            (subst (λ h. Checked n [] h n.last_daily_summary n) (sym (eq_of_=? _ _ same))
              (nothing_sent n ok_db))
      | inr other ↦ rw (later, other) (choose_hour cfg.hourly_summary)
    ]
  ]

  pub check_day-Checked :
      Checked n (daily_messages cfg ts n) n.last_hourly_summary (day_start ts) (check_day cfg ts n)
  unfolding check_day
  check_day-Checked = elim (Bool-cases (n.last_daily_summary =? 0)) [
    | inl first ↦ rw first (day_set (nothing_sent n ok_db) (day_start ts))
    | inr later ↦ elim (Bool-cases (day_start ts =? n.last_daily_summary)) [
      | inl same ↦
          rw (later, same)
            (subst (λ d. Checked n [] n.last_hourly_summary d n) (sym (eq_of_=? _ _ same))
              (nothing_sent n ok_db))
      | inr other ↦ rw (later, other) (choose_day cfg.daily_summary)
    ]
  ]
