-- ===== src/Store/Ingest/Atomic.antt =====
-- store/ingest.go: the outbox transaction when statements fail.
use runtime_pulse.Prelude.{ℕ, suc, String, Bool, true, false, List, [], ◌∷◌, ◌++◌}
use runtime_pulse.Core.{Event, Rule, Continuation, TemplateEngine}
use runtime_pulse.Store.Tables.{PayloadCodec}
use runtime_pulse.Store.Sql.Faults.{
  Agrees, IsAtomic, Agrees-bind, Agrees-pure, transaction-IsAtomic, agrees_rules,
}
use runtime_pulse.Store.Ingest.{insert_event, inserted, ingest_rule, ingest_rules, ingest}

insert_event-Agrees : (codec : PayloadCodec) (ev : Event) → Agrees (insert_event codec ev)
unfolding insert_event
insert_event-Agrees codec ev = search agrees_rules

inserted-Agrees : (r : Rule) (c : Continuation) (added : Bool) → Agrees (inserted r c added)
unfolding inserted
inserted-Agrees r c false = search agrees_rules
inserted-Agrees r c true = search agrees_rules

ingest_rule-Agrees :
    (t : TemplateEngine) (ev : Event) (now : ℕ) (id : String) (r : Rule)
    → Agrees (ingest_rule t ev now id r)
unfolding ingest_rule
ingest_rule-Agrees t ev now id r = search (agrees_rules, inserted-Agrees)

ingest_rules-Agrees :
    (t : TemplateEngine) (ev : Event) (now : ℕ) (ids : ℕ → String) (rs : List Rule)
    → Agrees (ingest_rules t ev now ids rs)
unfolding ingest_rules
ingest_rules-Agrees t ev now ids [] = search agrees_rules
ingest_rules-Agrees t ev now ids (r ∷ rs) =
    Agrees-bind (ingest_rule t ev now (ids 0) r) _ (ingest_rule-Agrees t ev now (ids 0) r) λ made.
      Agrees-bind (ingest_rules t ev now (λ n. ids (suc n)) rs) _
        (ingest_rules-Agrees t ev now (λ n. ids (suc n)) rs) (λ rest. Agrees-pure (made ++ rest))

-- Whatever statements fail, `ingest` either returns an error and leaves every table as it was, or
-- returns what it would return, and leaves what it would leave, if none had failed.
pub ingest-IsAtomic :
    (t : TemplateEngine) (codec : PayloadCodec) (ev : Event) (now : ℕ) (ids : ℕ → String)
    → IsAtomic (ingest t codec ev now ids)
unfolding ingest
ingest-IsAtomic t codec ev now ids =
    transaction-IsAtomic _ (search (agrees_rules, insert_event-Agrees, ingest_rules-Agrees))
