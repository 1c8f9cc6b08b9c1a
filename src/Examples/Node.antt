-- ===== src/Examples/Node.antt =====
-- A node that is busy at first, and then reverts.
use cow_solver_skeleton.Prelude.{
  ◌==◌, false, ◌≡◌, refl, none, some, ok, err, other_error, lower, if◌then◌else◌,
}
use cow_solver_skeleton.Encoder.Bytes.{starts_0x, drop_text, take_text}
use cow_solver_skeleton.Routing.Rpc.{
  positive, text, fields, Response, payload, RpcClient, decode_hex, decode_revert_data, is_revert,
  is_caller_auth_revert, is_rate_limit, on_body, on_response, attempts_from, revert_reason,
  capture_error, eth_call_capture,
}
use cow_solver_skeleton.Routing.Rpc.Captured.{Decided, eth_call_capture-Decided}

abbrev phantom : Response
phantom = record {
  status_code = 200;
  json = ok (record {
    error = some (fields (some (positive 3)) (some "execution reverted") (text "0xDEAD") "");
    result = none;
    printed = "";
  });
}

abbrev node : RpcClient
node = record {
  post = λ asked n.
      if n == 1
      then ok (record { status_code = 429; json = err (other_error "no JSON") })
      else ok phantom;
  read_string = λ bs. err (other_error "not a string");
}

reverted :
    eth_call_capture node "0x01" "0x02" none "latest" ≡ ok (false, "execution reverted: 0xdead")
unfolding eth_call_capture attempts_from on_response on_body is_rate_limit capture_error is_revert
    revert_reason decode_revert_data decode_hex is_caller_auth_revert lower starts_0x drop_text
    take_text
reverted = refl

eth_call_capture-Decided_example :
    Decided node (payload "0x01" "0x02" none "latest") 1 4 (false, "execution reverted: 0xdead")
eth_call_capture-Decided_example =
    eth_call_capture-Decided node "0x01" "0x02" none "latest" (false, "execution reverted: 0xdead")
      reverted
