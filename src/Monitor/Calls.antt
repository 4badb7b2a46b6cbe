-- ===== src/Monitor/Calls.antt =====
-- src/monitor/mcall.c: the protected calls by their number, and src/monitor/entry.c, which passes
-- them on.
use carrels.Base.{ℕ, ◌+◌, ◌-◌, ◌%◌, ◌^◌, ◌==◌, if◌then◌else◌, some, leb}
use carrels.Monitor.State.{Monitor, Env, reply, Outcome, no_error, monitor_get_pcid_from_ch}
use carrels.Monitor.Network.{monitor_call_set_vswitch_acl}
use carrels.Monitor.Requests.{
  monitor_call_backup_protocon_loading_context, monitor_call_stop_and_restore_protocon,
  monitor_call_suspend_protocon, monitor_call_resume_protocon, monitor_call_list_protocons,
  monitor_call_query_protocons,
}
use carrels.Monitor.Deploy.{
  monitor_call_deploy_first_half, monitor_call_deploy_to_protocon, monitor_call_deploy_result,
}

-- include/carrels-user.h; a number that is none of these is `undefined_call`.
pub data Call : Type 0 where
  deploy suspend resume list_protocons terminate_ext query_protocons flip_acl_rule : Call
  set_vswitch_acl backup_context terminate deploy_to_protocon deploy_result : Call
  undefined_call : Call

unfoldable pub call_of : ℕ → Call
call_of n =
    if n == 1
    then deploy
    else if n == 3
    then suspend
    else if n == 4
    then resume
    else if n == 5
    then list_protocons
    else if n == 6
    then terminate_ext
    else if n == 10
    then query_protocons
    else if n == 17
    then flip_acl_rule
    else if n == 18
    then set_vswitch_acl
    else if n == 20
    then backup_context
    else if n == 21
    then terminate
    else if n == 22
    then deploy_to_protocon
    else if n == 23
    then deploy_result
    else undefined_call

-- A word that is passed as a `microkit_channel` loses its upper half.
abbrev pub channel_of : ℕ → ℕ
channel_of w = w % 2 ^ 32

-- Message registers 1, 2 and 3.
pub record Words : Type 0 where
  pub mr1 : ℕ
  pub mr2 : ℕ
  pub mr3 : ℕ

unfoldable pub handle_call : Env → Call → Monitor → ℕ → Words → Outcome
handle_call env deploy m ch w = some (monitor_call_deploy_first_half env m w.mr1)
handle_call env deploy_to_protocon m ch w =
    some (monitor_call_deploy_to_protocon env m w.mr1 w.mr2 w.mr3)
handle_call env deploy_result m ch w = some (monitor_call_deploy_result m)
handle_call env flip_acl_rule m ch w =
    some (record m { pd_io_acl_rule = if m.pd_io_acl_rule == 0 then 1 else 0 }, reply no_error)
handle_call env set_vswitch_acl m ch w = some (monitor_call_set_vswitch_acl env m w.mr1 w.mr2 w.mr3)
handle_call env backup_context m ch w = monitor_call_backup_protocon_loading_context m ch
handle_call env terminate m ch w =
    monitor_call_stop_and_restore_protocon env m ((ch + 2 ^ 32 - 24) % 2 ^ 32)
handle_call env suspend m ch w = some (monitor_call_suspend_protocon m (channel_of w.mr1))
handle_call env resume m ch w = some (monitor_call_resume_protocon m (channel_of w.mr1))
handle_call env list_protocons m ch w = some (monitor_call_list_protocons m)
handle_call env query_protocons m ch w = some (monitor_call_query_protocons m ch)
handle_call env terminate_ext m ch w =
    let target = if leb 24 ch then monitor_get_pcid_from_ch ch else channel_of w.mr1 in
    monitor_call_stop_and_restore_protocon env m target
handle_call env undefined_call m ch w = some (m, reply no_error)

unfoldable pub monitor_main_handle_pccall : Env → Monitor → ℕ → ℕ → Words → Outcome
unfolding handle_call
monitor_main_handle_pccall env m call_id ch w = handle_call env (call_of call_id) m ch w
