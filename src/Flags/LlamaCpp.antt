-- ===== src/Flags/LlamaCpp.antt =====
-- The flags that pkg/inference/runtime_flags_allowlist.go allows for llama.cpp, by its headings.
use Prim.Native.String.{String}
use model_runner.Common.{List, [], ◌∷◌, ◌++◌}

unfoldable pub llama_cpp_threading_and_cpu_control : List String
llama_cpp_threading_and_cpu_control =
    "-t" ∷ "--threads" ∷ "-tb" ∷ "--threads-batch" ∷ "-C" ∷ "--cpu-mask" ∷ "-Cr" ∷ "--cpu-range"
    ∷ "--cpu-strict" ∷ "--prio" ∷ "--poll" ∷ "-Cb" ∷ "--cpu-mask-batch" ∷ "-Crb"
    ∷ "--cpu-range-batch" ∷ "--cpu-strict-batch" ∷ "--prio-batch" ∷ "--poll-batch" ∷ []

unfoldable pub llama_cpp_context_and_prediction : List String
llama_cpp_context_and_prediction =
    "-c" ∷ "--ctx-size" ∷ "-n" ∷ "--predict" ∷ "--n-predict" ∷ "--keep" ∷ []

unfoldable pub llama_cpp_batching_and_performance : List String
llama_cpp_batching_and_performance =
    "-b" ∷ "--batch-size" ∷ "-ub" ∷ "--ubatch-size" ∷ "--swa-full" ∷ "-fa" ∷ "--flash-attn"
    ∷ "--perf" ∷ "--no-perf" ∷ []

unfoldable pub llama_cpp_sampling_parameters : List String
llama_cpp_sampling_parameters =
    "--samplers" ∷ "-s" ∷ "--seed" ∷ "--temp" ∷ "--temperature" ∷ "--top-k" ∷ "--top-p" ∷ "--min-p"
    ∷ "--top-nsigma" ∷ "--xtc-probability" ∷ "--xtc-threshold" ∷ "--typical" ∷ "--repeat-last-n"
    ∷ "--repeat-penalty" ∷ "--presence-penalty" ∷ "--frequency-penalty" ∷ "--dry-multiplier"
    ∷ "--dry-base" ∷ "--dry-allowed-length" ∷ "--dry-penalty-last-n" ∷ "--mirostat"
    ∷ "--mirostat-lr" ∷ "--mirostat-ent" ∷ "--ignore-eos" ∷ "--dynatemp-range" ∷ "--dynatemp-exp"
    ∷ []

unfoldable pub llama_cpp_gpu_and_device_management : List String
llama_cpp_gpu_and_device_management =
    "-dev" ∷ "--device" ∷ "-ngl" ∷ "--gpu-layers" ∷ "--n-gpu-layers" ∷ "-sm" ∷ "--split-mode"
    ∷ "-ts" ∷ "--tensor-split" ∷ "-mg" ∷ "--main-gpu" ∷ "-fit" ∷ "--fit" ∷ "-fitt" ∷ "--fit-target"
    ∷ "-fitc" ∷ "--fit-ctx" ∷ []

unfoldable pub llama_cpp_memory_and_caching : List String
llama_cpp_memory_and_caching =
    "-kvo" ∷ "--kv-offload" ∷ "-nkvo" ∷ "--no-kv-offload" ∷ "--repack" ∷ "-nr" ∷ "--no-repack"
    ∷ "--no-host" ∷ "-ctk" ∷ "--cache-type-k" ∷ "-ctv" ∷ "--cache-type-v" ∷ "--mlock" ∷ "--mmap"
    ∷ "--no-mmap" ∷ "-dio" ∷ "--direct-io" ∷ "-ndio" ∷ "--no-direct-io" ∷ "-cram" ∷ "--cache-ram"
    ∷ "-kvu" ∷ "--kv-unified" ∷ "--context-shift" ∷ "--no-context-shift" ∷ []

unfoldable pub llama_cpp_rope_scaling : List String
llama_cpp_rope_scaling =
    "--rope-scaling" ∷ "--rope-scale" ∷ "--rope-freq-base" ∷ "--rope-freq-scale" ∷ "--yarn-orig-ctx"
    ∷ "--yarn-ext-factor" ∷ "--yarn-attn-factor" ∷ "--yarn-beta-slow" ∷ "--yarn-beta-fast" ∷ []

unfoldable pub llama_cpp_server_configuration : List String
llama_cpp_server_configuration =
    "-np" ∷ "--parallel" ∷ "-cb" ∷ "--cont-batching" ∷ "-nocb" ∷ "--no-cont-batching" ∷ "--warmup"
    ∷ "--no-warmup" ∷ "-to" ∷ "--timeout" ∷ "--threads-http" ∷ "--cache-prompt"
    ∷ "--no-cache-prompt" ∷ "--cache-reuse" ∷ "--sleep-idle-seconds" ∷ []

unfoldable pub llama_cpp_multimodal : List String
llama_cpp_multimodal =
    "--mmproj-auto" ∷ "--no-mmproj" ∷ "--no-mmproj-auto" ∷ "--mmproj-offload"
    ∷ "--no-mmproj-offload" ∷ "--image-min-tokens" ∷ "--image-max-tokens" ∷ "--spm-infill" ∷ []

unfoldable pub llama_cpp_speculative_decoding : List String
llama_cpp_speculative_decoding =
    "--spec-draft-threads" ∷ "-td" ∷ "--threads-draft" ∷ "--spec-draft-threads-batch" ∷ "-tbd"
    ∷ "--threads-batch-draft" ∷ "--spec-draft-cpu-mask" ∷ "-Cd" ∷ "--cpu-mask-draft"
    ∷ "--spec-draft-cpu-range" ∷ "-Crd" ∷ "--cpu-range-draft" ∷ "--spec-draft-cpu-strict"
    ∷ "--cpu-strict-draft" ∷ "--spec-draft-prio" ∷ "--prio-draft" ∷ "--spec-draft-poll"
    ∷ "--poll-draft" ∷ "--spec-draft-cpu-mask-batch" ∷ "-Cbd" ∷ "--cpu-mask-batch-draft"
    ∷ "--spec-draft-cpu-strict-batch" ∷ "--cpu-strict-batch-draft" ∷ "--spec-draft-prio-batch"
    ∷ "--prio-batch-draft" ∷ "--spec-draft-poll-batch" ∷ "--poll-batch-draft"
    ∷ "--spec-draft-override-tensor" ∷ "-otd" ∷ "--override-tensor-draft" ∷ "--spec-draft-cpu-moe"
    ∷ "-cmoed" ∷ "--cpu-moe-draft" ∷ "--spec-draft-n-cpu-moe" ∷ "--spec-draft-ncmoe" ∷ "-ncmoed"
    ∷ "--n-cpu-moe-draft" ∷ "--spec-draft-n-max" ∷ "--draft-n-max" ∷ "--draft-max"
    ∷ "--spec-draft-n-min" ∷ "--draft-n-min" ∷ "--draft-min" ∷ "--spec-draft-p-split"
    ∷ "--draft-p-split" ∷ "--spec-draft-p-min" ∷ "--draft-p-min" ∷ "--spec-draft-backend-sampling"
    ∷ "--no-spec-draft-backend-sampling" ∷ "--spec-draft-device" ∷ "-devd" ∷ "--device-draft"
    ∷ "--spec-draft-ngl" ∷ "-ngld" ∷ "--gpu-layers-draft" ∷ "--n-gpu-layers-draft" ∷ "--spec-type"
    ∷ "--spec-ngram-mod-n-min" ∷ "--spec-ngram-mod-n-max" ∷ "--spec-ngram-mod-n-match"
    ∷ "--spec-ngram-simple-size-n" ∷ "--spec-ngram-simple-size-m" ∷ "--spec-ngram-simple-min-hits"
    ∷ "--spec-ngram-map-k-size-n" ∷ "--spec-ngram-map-k-size-m" ∷ "--spec-ngram-map-k-min-hits"
    ∷ "--spec-ngram-map-k4v-size-n" ∷ "--spec-ngram-map-k4v-size-m"
    ∷ "--spec-ngram-map-k4v-min-hits" ∷ "--spec-draft-type-k" ∷ "-ctkd" ∷ "--cache-type-k-draft"
    ∷ "--spec-draft-type-v" ∷ "-ctvd" ∷ "--cache-type-v-draft" ∷ "-cd" ∷ "--ctx-size-draft" ∷ []

unfoldable pub llama_cpp_lora : List String
llama_cpp_lora = "--lora-init-without-apply" ∷ []

unfoldable pub llama_cpp_control_vectors : List String
llama_cpp_control_vectors = "--control-vector-layer-range" ∷ []

unfoldable pub llama_cpp_grammar_and_constraints : List String
llama_cpp_grammar_and_constraints =
    "--grammar" ∷ "-j" ∷ "--json-schema" ∷ "-bs" ∷ "--backend-sampling" ∷ []

unfoldable pub llama_cpp_template_and_format_control : List String
llama_cpp_template_and_format_control =
    "--chat-template" ∷ "--chat-template-kwargs" ∷ "--jinja" ∷ "--no-jinja" ∷ "--pooling"
    ∷ "--reasoning" ∷ "--reasoning-format" ∷ "--reasoning-budget" ∷ "--prefill-assistant"
    ∷ "--no-prefill-assistant" ∷ []

unfoldable pub llama_cpp_web_interface_and_api : List String
llama_cpp_web_interface_and_api =
    "--api-prefix" ∷ "--webui" ∷ "--no-webui" ∷ "--webui-config" ∷ "--api-key" ∷ "--metrics"
    ∷ "--no-metrics" ∷ "--props" ∷ "--slots" ∷ "--no-slots" ∷ []

unfoldable pub llama_cpp_embedding_and_specialized : List String
llama_cpp_embedding_and_specialized =
    "--embedding" ∷ "--embeddings" ∷ "--rerank" ∷ "--reranking" ∷ "-sps"
    ∷ "--slot-prompt-similarity" ∷ []

unfoldable pub llama_cpp_tensor_and_computation : List String
llama_cpp_tensor_and_computation =
    "-cmoe" ∷ "--cpu-moe" ∷ "-ncmoe" ∷ "--n-cpu-moe" ∷ "--check-tensors" ∷ "--op-offload"
    ∷ "--no-op-offload" ∷ []

unfoldable pub llama_cpp_verbose_debug : List String
llama_cpp_verbose_debug = "-v" ∷ "--verbose" ∷ []

unfoldable pub llama_cpp_allowed_flags : List String
unfolding llama_cpp_threading_and_cpu_control llama_cpp_context_and_prediction
    llama_cpp_batching_and_performance llama_cpp_sampling_parameters
    llama_cpp_gpu_and_device_management llama_cpp_memory_and_caching llama_cpp_rope_scaling
    llama_cpp_server_configuration llama_cpp_multimodal llama_cpp_speculative_decoding
    llama_cpp_lora llama_cpp_control_vectors llama_cpp_grammar_and_constraints
    llama_cpp_template_and_format_control llama_cpp_web_interface_and_api
    llama_cpp_embedding_and_specialized llama_cpp_tensor_and_computation llama_cpp_verbose_debug
llama_cpp_allowed_flags =
    llama_cpp_threading_and_cpu_control ++ llama_cpp_context_and_prediction
    ++ llama_cpp_batching_and_performance ++ llama_cpp_sampling_parameters
    ++ llama_cpp_gpu_and_device_management ++ llama_cpp_memory_and_caching ++ llama_cpp_rope_scaling
    ++ llama_cpp_server_configuration ++ llama_cpp_multimodal ++ llama_cpp_speculative_decoding
    ++ llama_cpp_lora ++ llama_cpp_control_vectors ++ llama_cpp_grammar_and_constraints
    ++ llama_cpp_template_and_format_control ++ llama_cpp_web_interface_and_api
    ++ llama_cpp_embedding_and_specialized ++ llama_cpp_tensor_and_computation
    ++ llama_cpp_verbose_debug
