-- ===== src/HttpContext/Tests.antt =====
-- Runs of the search for a model's name.
use vortex_net.Base.{◌≡◌, refl, some, codes, []}
use vortex_net.HttpContext.{new, model_name, parse_model_name, find, is_prefix}

-- The name is what stands between the first two quotes after the first colon behind the key.
found_name : model_name (codes "{\"model\" : \"qwen\"}") ≡ some (codes "qwen")
unfolding model_name find is_prefix
found_name = refl

-- A text in which the key is a value gives what comes next.
key_as_value : model_name (codes "{\"type\":\"model\",\"id\":\"x\"}") ≡ some (codes "x")
unfolding model_name find is_prefix
key_as_value = refl

no_name : parse_model_name new (codes "{\"model\":7}") ≡ []
unfolding parse_model_name model_name find is_prefix
no_name = refl
