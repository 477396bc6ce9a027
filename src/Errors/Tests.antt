-- ===== src/Errors/Tests.antt =====
-- Errors that the classification is tried on.
use kubectl_mcp.Prelude.{◌⊎◌, String, true, false, none, some, ◌≡◌, refl}
use kubectl_mcp.Mcp.Message.{contains}
use kubectl_mcp.Errors.{GoError}
use kubectl_mcp.Errors.Classify.{classify_by_error_message, classify_error, has_any}
use kubectl_mcp.Errors.Classify.Messages.{
  is_known, classify_error-known, is_config_missing, classify_by_error_message-config_missing,
}
use kubectl_mcp.Errors.Format.Agreement.{types_of, types_of-one}

-- the message that the client manager gives for a kubeconfig that is missing
abbrev missing_kubeconfig : GoError
missing_kubeconfig = record {
  message = "kubeconfig not found";
  info = none;
  status = none;
  op_error = none;
  dns_error = false;
  net_error = none;
}

abbrev refused : GoError
refused = record {
  message = "dial tcp: connection refused";
  info = none;
  status = none;
  op_error = some record { op = "dial"; refused = true };
  dns_error = false;
  net_error = some false;
}

abbrev as_it_is : String → String
as_it_is text = text

classify_error-known_example : is_known (classify_error as_it_is (some missing_kubeconfig)) ≡ true
classify_error-known_example = classify_error-known as_it_is missing_kubeconfig refl

classify_by_error_message-config_missing_example :
    (contains "kubeconfig: no such file" "not found" ≡ false)
    × ((contains "kubeconfig: no such file" "不存在" ≡ true)
        ⊎ (contains "kubeconfig: no such file" "no such file" ≡ true))
unfolding classify_by_error_message has_any is_config_missing
classify_by_error_message-config_missing_example =
    classify_by_error_message-config_missing "kubeconfig: no such file" refl

types_of-one_example : types_of as_it_is (some refused) ≡ 1
types_of-one_example = types_of-one as_it_is refused refl
