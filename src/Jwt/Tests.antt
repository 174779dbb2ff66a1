-- ===== src/Jwt/Tests.antt =====
-- Runs of VerifyJWT and VerifyDeviceJWT of internal/utils/jwt.go.
use rtz_server.Base.{◌≡◌, refl}
use rtz_server.GoText.{codes, has_prefix, str_eq}
use rtz_server.Jwt.{
  accepted, refused, verify_jwt, verify_device_jwt, user_key, device_key, public_key,
}
use rtz_server.Jwt.Laws.{UserProof, DeviceProof, verify_jwt_iff, verify_device_jwt_iff}
use rtz_server.Jwt.Fixtures.{sample_keys, sample_parser, sample_user_token, sample_device_token}

wrong_secret :
    verify_jwt sample_keys (sample_parser sample_user_token) (codes "k") (codes "x") ≡ refused
unfolding verify_jwt user_key has_prefix
wrong_secret = refl

wrong_device :
    verify_device_jwt sample_keys
      (sample_parser sample_device_token)
      (codes "d2")
      (codes "k1")
      (codes "k1")
    ≡ refused
unfolding verify_device_jwt device_key public_key has_prefix str_eq
wrong_device = refl

good_user :
    verify_jwt sample_keys (sample_parser sample_user_token) (codes "k") (codes "kx") ≡ accepted 7
unfolding verify_jwt user_key has_prefix
good_user = refl

good_device :
    verify_device_jwt sample_keys
      (sample_parser sample_device_token)
      (codes "d1")
      (codes "k1")
      (codes "k1x")
    ≡ accepted tt
unfolding verify_device_jwt device_key public_key has_prefix str_eq
good_device = refl

verify_jwt_iff_example :
    UserProof sample_keys (sample_parser sample_user_token) (codes "k") (codes "kx") 7
verify_jwt_iff_example =
    (verify_jwt_iff sample_keys (sample_parser sample_user_token) (codes "k") (codes "kx") 7).0
      good_user

verify_device_jwt_iff_example :
    DeviceProof sample_keys
      (sample_parser sample_device_token)
      (codes "d1")
      (codes "k1")
      (codes "k1x")
verify_device_jwt_iff_example =
    (verify_device_jwt_iff sample_keys (sample_parser sample_device_token) (codes "d1") (codes "k1")
        (codes "k1x")).0
      good_device
