-- ===== src/Simulator.antt =====
-- src/simulator.rs: the network simulator, a reference server with a trace of its deliveries. The
-- HTML report is not modelled.
pub mod Delivery
use Prim.Native.String.{◌++◌ as ◌<>◌}
use loomabase.Base.{ℕ, ◌+◌, ◌%◌, ◌^◌, String, List, [], ◌∷◌, ◌++◌, length}
use loomabase.Base.Decimal.{decimal}
use loomabase.Error.{Result, ok, err}
use loomabase.BTree.{BTreeMap}
use loomabase.Value.{CrdtColumn, SyncPayload}
use loomabase.Validate.{Key}
use loomabase.Schema.{TableDef}
use loomabase.Merge.{CrdtState}
use loomabase.Merge.{new as new_state}
use loomabase.Server.{merge}

pub data SimulationAction : Type 0 where
  delivered dropped duplicated : SimulationAction

pub record SimulationEvent : Type 0 where
  pub step : ℕ
  pub device_id : String
  pub action : SimulationAction
  pub changes : ℕ
  pub result : String

pub record NetworkSimulator : Type 0 where
  pub server : CrdtState
  pub trace : List SimulationEvent
  pub step : ℕ

-- `NetworkSimulator::new`
unfoldable pub new_simulator : TableDef → NetworkSimulator
new_simulator table = record { server = new_state table; trace = []; step = 0 }

-- `self.step += 1`, on a `u64`
abbrev pub tick : NetworkSimulator → NetworkSimulator
tick n = record n { step = (n.step + 1) % 2 ^ 64 }

-- `self.trace.push(SimulationEvent { step: self.step, … })`
unfoldable pub record_event :
    String → SimulationAction → ℕ → String → NetworkSimulator → NetworkSimulator
record_event device action changes result n = record n {
  trace =
      n.trace
      ++ (record {
        step = n.step;
        device_id = device;
        action = action;
        changes = changes;
        result = result;
      }
          ∷ []);
}

-- `drop_payload`
unfoldable pub drop_payload : SyncPayload → String → NetworkSimulator → NetworkSimulator
unfolding record_event
drop_payload payload device n =
    record_event device dropped (length payload.changes) "network dropped payload before merge"
      (tick n)

module _ (json_len : CrdtColumn → Result ℕ) where
  -- `self.server.merge(…)?`: the state the server is left with, and what it returned.
  abbrev pub serve : SyncPayload → String → NetworkSimulator → NetworkSimulator × Result SyncPayload
  serve payload device n = (
    record n { server = (merge json_len payload device n.server).0 },
    (merge json_len payload device n.server).1,
  )

  unfoldable pub deliver :
      SyncPayload → String → NetworkSimulator → NetworkSimulator × Result SyncPayload
  unfolding record_event
  deliver payload device n =
      let (served, answer) = serve payload device (tick n) in
      elim answer [
        | err e ↦ (served, err e)
        | ok response ↦ (
          record_event device delivered (length payload.changes)
              ("accepted; " <> (decimal (length response.changes) <> " response rows")) served,
          ok response,
        )
      ]

  -- `duplicate`
  unfoldable pub duplicate :
      SyncPayload → String → NetworkSimulator → NetworkSimulator × Result SyncPayload
  unfolding deliver record_event
  duplicate payload device n =
      let (once, answer) = deliver payload device n in
      elim answer [
        | err e ↦ (once, err e)
        | ok first ↦
            let (twice, second) = serve payload device (tick once) in
            elim second [
              | err e ↦ (twice, err e)
              | ok response ↦ (
                record_event device duplicated (length response.changes)
                    "duplicate delivery preserved cell state" twice,
                ok first,
              )
            ]
      ]
