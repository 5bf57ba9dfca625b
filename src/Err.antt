-- ===== src/Err.antt =====
-- The status codes of global/ldacs_def.h that every component returns.
-- The prefixes `LD_` and `LD_ERR_` are dropped.
pub data Err : Type 0 where
  ok wrong_para internal wait invalid invalid_mac lock nomem thread queue null key : Err
  inval_state_reached state_loop no_state_change final_state_reachd wrong_state : Err
  wrong_path wrong_req wrong_query wrong_data wrong_uri no_req open_sql fail_exec_sql : Err
