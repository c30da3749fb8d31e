-- ===== src/Poe/Server/Dispatch.antt =====
-- `newHandler` of x/poe/handler.go: the messages of the module and the operation that each one runs. The
-- operation starts with no events, and those it emits go into the result; a result that is an error
-- carries none.
use tgrade.Base.{Option, none, some, List, [], ok, err, panic, unknown_request}
use tgrade.Base.Int.{ℤ}
use tgrade.Poe.Unbonding.{WasmEvent}
use tgrade.Poe.Messages.{MsgCreateValidator, MsgUpdateValidator, MsgDelegate, MsgUndelegate}
use tgrade.Poe.Contract.{Call, ◌>>=◌, ◌>>◌, pure}
use tgrade.Poe.Server.{
  ServerState, ServerServices, create_validator, update_validator, delegate, undelegate,
}

pub data PoeMsg : Type 0 where
  msg_create_validator : MsgCreateValidator → PoeMsg
  msg_update_validator : MsgUpdateValidator → PoeMsg
  msg_delegate : MsgDelegate → PoeMsg
  msg_undelegate : MsgUndelegate → PoeMsg
  msg_unknown : PoeMsg

-- The completion time, of an undelegation, and the events.
pub record ServiceResult : Type 0 where
  pub completion_time : Option ℤ
  pub events : List WasmEvent

module _ {W : Type 0} (v : ServerServices W) where
  unfoldable pub run_msg : PoeMsg → Call (ServerState W) (Option ℤ)
  run_msg (msg_create_validator m) = do create_validator v m; pure (ok none)
  run_msg (msg_update_validator m) = do update_validator v m; pure (ok none)
  run_msg (msg_delegate m) = do delegate v m; pure (ok none)
  run_msg (msg_undelegate m) = do t ← undelegate v m; pure (ok (some t))
  run_msg msg_unknown = pure (err unknown_request)

  unfoldable pub handle_msg : PoeMsg → Call W ServiceResult
  handle_msg m w =
      let (o, (events, w')) = run_msg m ([], w) in
      elim o [
        | ok t ↦ (ok (record { completion_time = t; events = events }), w')
        | err e ↦ (err e, w')
        | panic ↦ (panic, w')
      ]
