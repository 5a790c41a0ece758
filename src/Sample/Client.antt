-- ===== src/Sample/Client.antt =====
-- The sample client (src/sample/sampleclientapp/app.cpp), without what it prints. The local time as
-- text, which std::asctime makes, is an argument.
use peerboot_cpp.Prelude.{ℕ, zero, suc, List, [], ◌∷◌, ◌++◌, true, leb, length, if◌then◌else◌}
use peerboot_cpp.Text.{Str, codes}
use peerboot_cpp.Types.{ErrorCode, err_ok}
use peerboot_cpp.World.{Env}
use peerboot_cpp.Machine.{M, pure, ◌>>=◌, ◌>>◌}
use peerboot_cpp.Library
use peerboot_cpp.Library.{is_error}
use peerboot_cpp.Node.{Event}
use peerboot_cpp.Sample.Demo.{run_all}

abbrev pub take : ℕ → Str → Str
take zero s = []
take (suc n) [] = []
take (suc n) (c ∷ s) = c ∷ take n s

abbrev pub drop : ℕ → Str → Str
drop zero s = s
drop (suc n) [] = []
drop (suc n) (c ∷ s) = drop n s

-- The time of day, HH:MM:SS: s.substr(11, 8)
unfoldable pub get_endpoint_suffix : Str → Str
get_endpoint_suffix asctime = if leb 19 (length asctime) then take 8 (drop 11 asctime) else []

unfoldable pub main : Env → Str → List Event → M ErrorCode
unfolding get_endpoint_suffix
main env asctime waiting = do
  err ←
      Library.init env (codes "sample.peerboot.io")
        (codes "dummy_endpoint_" ++ get_endpoint_suffix asctime) true
  if is_error err then pure err else (run_all env waiting >> Library.deinit env >> pure err_ok)
