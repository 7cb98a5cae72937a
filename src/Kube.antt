-- ===== src/Kube.antt =====
-- What the calls of the Kubernetes API return when they fail, and pkg/k8sutil/util.go, which
-- says after which failures a request is made again.
use redis_cluster_operator.Common.{Bool, true, false, ◌||◌, Text}

-- The reasons of an API error that the code asks for; `other` is any other one, and any error that
-- does not come from the API server.
pub data Reason : Type 0 where
  not_found service_unavailable request_timeout server_timeout too_many_requests other : Reason

pub record KubeError : Type 0 where
  pub reason : Reason
  pub message : Text

abbrev pub is_not_found : KubeError → Bool
is_not_found e = elim e.reason [ not_found ↦ true | _ ↦ false ]

abbrev pub is_service_unavailable : Reason → Bool
is_service_unavailable service_unavailable = true
is_service_unavailable _ = false

abbrev pub is_timeout : Reason → Bool
is_timeout request_timeout = true
is_timeout _ = false

abbrev pub is_server_timeout : Reason → Bool
is_server_timeout server_timeout = true
is_server_timeout _ = false

abbrev pub is_too_many_requests : Reason → Bool
is_too_many_requests too_many_requests = true
is_too_many_requests _ = false

unfoldable pub is_request_retryable : KubeError → Bool
is_request_retryable e =
    is_service_unavailable e.reason
    || is_timeout e.reason
    || is_server_timeout e.reason
    || is_too_many_requests e.reason

-- errors.New and fmt.Errorf: an error without a reason of the API.
abbrev pub plain_error : Text → KubeError
plain_error text = record { reason = other; message = text }
