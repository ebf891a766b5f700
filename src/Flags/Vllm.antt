-- ===== src/Flags/Vllm.antt =====
-- The flags that pkg/inference/runtime_flags_allowlist.go allows for vLLM, by its headings.
use Prim.Native.String.{String}
use model_runner.Common.{List, [], ◌∷◌, ◌++◌}

unfoldable pub vllm_parallelism : List String
vllm_parallelism = "--tensor-parallel-size" ∷ "-tp" ∷ "--pipeline-parallel-size" ∷ "-pp" ∷ []

unfoldable pub vllm_model_configuration : List String
vllm_model_configuration =
    "--max-model-len" ∷ "--max-num-batched-tokens" ∷ "--max-num-seqs" ∷ "--block-size"
    ∷ "--swap-space" ∷ "--seed" ∷ []

unfoldable pub vllm_data_types_and_quantization : List String
vllm_data_types_and_quantization = "--dtype" ∷ "--quantization" ∷ "-q" ∷ "--kv-cache-dtype" ∷ []

unfoldable pub vllm_performance_flags : List String
vllm_performance_flags =
    "--enforce-eager" ∷ "--enable-prefix-caching" ∷ "--enable-chunked-prefill"
    ∷ "--disable-custom-all-reduce" ∷ "--use-v2-block-manager" ∷ []

unfoldable pub vllm_tokenizer : List String
vllm_tokenizer = "--tokenizer-mode" ∷ "--max-logprobs" ∷ []

unfoldable pub vllm_misc : List String
vllm_misc = "--revision" ∷ "--load-format" ∷ "--disable-log-stats" ∷ "--served-model-name" ∷ []

unfoldable pub vllm_gpu_memory : List String
vllm_gpu_memory = "--gpu-memory-utilization" ∷ []

unfoldable pub vllm_allowed_flags : List String
unfolding vllm_parallelism vllm_model_configuration vllm_data_types_and_quantization
    vllm_performance_flags vllm_tokenizer vllm_misc vllm_gpu_memory
vllm_allowed_flags =
    vllm_parallelism ++ vllm_model_configuration ++ vllm_data_types_and_quantization
    ++ vllm_performance_flags ++ vllm_tokenizer ++ vllm_misc ++ vllm_gpu_memory
